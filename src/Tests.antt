-- ===== src/Tests.antt =====
-- Test data: a generator, connections, trees and clients of the benchmark.
pub mod Trees
pub mod Wire
pub mod Systems
pub mod Messages
pub mod Json
pub mod Capnp
pub mod Mdcapnp
pub mod Runs
pub mod Cases
use gorpcbench.Prelude.{
  ℕ, zero, suc, ◌+◌, ◌-◌, ◌%◌, ◌^◌, ◌<◌, ◌≡◌, refl, arith, List, [], ◌∷◌, length, replicate,
  length-replicate, All,
}
use gorpcbench.Go.Errors.{eof}
use gorpcbench.Go.Binary.{IsByte}
use gorpcbench.Go.Conn.{Conn, healthy}
use gorpcbench.Rpcbench.Values.{Tree, tree, empty, more}
use gorpcbench.Rpcbench.Tree.{TreeNodeImpl, node, nil, cons, zero_node}
use gorpcbench.Rpcbench.Rng.{Rng}

pub ones-All : (n : ℕ) → All IsByte (replicate n 1)
ones-All zero = tt
ones-All (suc n) = (omega arith, ones-All n)

-- The seed counts up; a number below `n` is the greatest, and bytes are ones.
abbrev pub counting : Rng
counting = record {
  Seed = ℕ;
  int64 = λ s. (s % 2 ^ 64, s + 1);
  int_n = λ n s. (n - 1, s + 1);
  read = λ n s. (replicate n 1, s + 1);
  int64_range = λ s. omega arith;
  int_n_range = λ n s h. omega arith;
  length-read = λ n s. length-replicate n 1;
  read_range = λ n s. ones-All n;
}

-- A connection on which every byte arrives alone.
abbrev pub slow : Conn
slow = record {
  pending = [];
  grant = λ n. 0;
  last = eof;
  buffered = [];
  sent = [];
  health = healthy;
}

-- Three nodes, and a spare one in the storage.
abbrev pub small : TreeNodeImpl
small = node 2 (cons (node 3 nil nil) (cons (node 5 nil nil) nil)) (cons zero_node nil)

abbrev pub small_values : Tree
small_values = tree 2 (more (tree 3 empty) (more (tree 5 empty) empty))

abbrev pub doubled : TreeNodeImpl
doubled = node 4 (cons (node 6 nil nil) (cons (node 10 nil nil) nil)) nil
