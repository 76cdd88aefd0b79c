-- ===== src/Gocapnp/Tree.antt =====
-- internal/rpc/gocapnp/gocapnp_helpers.go: the functions on trees, and the methods that make the
-- generated `TreeNode` a `TreeNode` of the benchmark.
-- The functions recur through nodes of the runtime, so they run on fuel.
pub mod Holds
pub mod Adapter
use gorpcbench.Prelude.{ℕ, zero, suc, ◌%◌, ◌^◌, List, [], ◌∷◌, length}
use gorpcbench.Go.Int64.{add64, mul64}
use gorpcbench.Go.Errors.{Result, ok, err, stuck}
use gorpcbench.Go.Loops.{each_pair}
use gorpcbench.Gocapnp.Runtime.{Runtime}

-- `int32(n)`
abbrev pub to_int32 : ℕ → ℕ
to_int32 n = n % 2 ^ 32

abbrev pub and_rest {ℓ} : {A : Type ℓ} → Result A → Result (List A) → Result (List A)
and_rest (ok a) (ok rest) = ok (a ∷ rest)
and_rest (ok a) (err e) = err e
and_rest (ok a) stuck = stuck
and_rest (err e) rest = err e
and_rest stuck rest = stuck

abbrev pub each {ℓ} : {A : Type ℓ} → (A → Result A) → List A → Result (List A)
each f [] = ok []
each f (t ∷ ts) = and_rest (f t) (each f ts)

module _ (w : Runtime) where
  abbrev pub put_back : w.Node → Result (List w.Node) → Result w.Node
  put_back t (ok ts) = ok (w.with_children ts t)
  put_back t (err e) = err e
  put_back t stuck = stuck

  -- Children that cannot be read are left as they are, and no error is reported.
  abbrev pub mult_below : (w.Node → Result w.Node) → w.Node → Result (List w.Node) → Result w.Node
  mult_below f t (ok ts) = put_back t (each f ts)
  mult_below f t (err e) = ok t
  mult_below f t stuck = stuck

  unfoldable pub mult_tree : ℕ → ℕ → w.Node → Result w.Node
  mult_tree zero m t = stuck
  mult_tree (suc fuel) m t =
      let t1 = w.set_value (mul64 (w.value t) m) t in
      mult_below (mult_tree fuel m) t1 (w.children t1)

  abbrev pub put_targets : w.Node → Result (Unit {0}) × List w.Node → Result (Unit {0}) × w.Node
  put_targets t (r, ts) = (r, w.with_children ts t)

  abbrev pub copy_into :
      (w.Node → w.Node → Result (Unit {0}) × w.Node)
      → List w.Node
      → Result (List w.Node) × w.Node
      → Result (Unit {0}) × w.Node
  copy_into f ss (ok ts, t) = put_targets t (each_pair f ss ts)
  copy_into f ss (err e, t) = (err e, t)
  copy_into f ss (stuck, t) = (stuck, t)

  abbrev pub copy_below :
      (w.Node → w.Node → Result (Unit {0}) × w.Node)
      → Result (List w.Node)
      → w.Node
      → Result (Unit {0}) × w.Node
  copy_below f (ok ss) t = copy_into f ss (w.new_children (to_int32 (length ss)) t)
  copy_below f (err e) t = (err e, t)
  copy_below f stuck t = (stuck, t)

  unfoldable pub copy_tree : ℕ → w.Node → w.Node → Result (Unit {0}) × w.Node
  copy_tree zero src tgt = (stuck, tgt)
  copy_tree (suc fuel) src tgt =
      copy_below (copy_tree fuel) (w.children src) (w.set_value (w.value src) tgt)

  -- `ChildrenCount` and `Child`: a list that cannot be read counts as empty.
  abbrev pub read_or_none : Result (List w.Node) → List w.Node
  read_or_none (ok ts) = ts
  read_or_none (err e) = []
  read_or_none stuck = []

  abbrev pub node_children : w.Node → List w.Node
  node_children t = read_or_none (w.children t)

  -- The error of `NewChildren` is not looked at.
  unfoldable pub init_children : ℕ → w.Node → w.Node
  init_children n t = (w.new_children (to_int32 n) t).1

  abbrev pub add_nodes : Result ℕ → ℕ → (ℕ → Result ℕ) → Result ℕ
  add_nodes (ok n) sum rest = rest (add64 sum n)
  add_nodes (err e) sum rest = err e
  add_nodes stuck sum rest = stuck

  abbrev pub sum_nodes : (w.Node → Result ℕ) → ℕ → List w.Node → Result ℕ
  sum_nodes f sum [] = ok sum
  sum_nodes f sum (t ∷ ts) = add_nodes (f t) sum (λ n. sum_nodes f n ts)

  unfoldable pub total_nodes : ℕ → w.Node → Result ℕ
  total_nodes zero t = stuck
  total_nodes (suc fuel) t = sum_nodes (total_nodes fuel) 1 (node_children t)
