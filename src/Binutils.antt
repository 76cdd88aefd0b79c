-- ===== src/Binutils.antt =====
-- internal/binutils/binutils.go: the binary form of numbers and trees that the TCP, HTTP and
-- websocket systems send.
pub mod Numbers
pub mod Trees
pub mod Requests
use gorpcbench.Prelude.{ℕ, zero, suc, ◌^◌, ltb, if◌then◌else◌}
use gorpcbench.Go.Int64.{mul64}
use gorpcbench.Go.Errors.{formatted, Result, ok, err, stuck}
use gorpcbench.Go.Io.{Io, pure, with_error, map_error, ◌>>=◌, ◌>>◌}
use gorpcbench.Go.Binary.{put_uint64, uint64}
use gorpcbench.Go.Conn.{Conn, read_full, write}
use gorpcbench.Rpcbench.Tree.{TreeNodeImpl, node, Slots, nil, cons, total_nodes}

-- Every caller passes a scratch buffer of 8 bytes, whose content is never read before it is set.
unfoldable pub read_int64 : Io Conn ℕ
read_int64 = do bs ← read_full 8; pure (uint64 bs)

unfoldable pub write_int64 : ℕ → Io Conn (Unit {0})
write_int64 v = write (put_uint64 v)

unfoldable mutual
  pub write_tree : TreeNodeImpl → Io Conn (Unit {0})
  write_tree (node v cs sp) = do write_int64 v; write_slots cs

  pub write_slots : Slots → Io Conn (Unit {0})
  write_slots nil = pure tt
  write_slots (cons t ts) = do write_tree t; write_slots ts

-- The tree is changed in place, and keeps the values that were read before an error.
abbrev pub after_value :
    Result ℕ × Conn
    → Slots
    → Slots
    → (Conn → Result (Unit {0}) × Slots × Conn)
    → Result (Unit {0}) × TreeNodeImpl × Conn
after_value (ok v, c) cs sp k =
    let (r, cs', c') = k c in (with_error (formatted "error reading children") r, node v cs' sp, c')
after_value (err e, c) cs sp k = (err (formatted "error reading value" e), node 0 cs sp, c)
after_value (stuck, c) cs sp k = (stuck, node 0 cs sp, c)

abbrev pub after_child :
    Result (Unit {0}) × TreeNodeImpl × Conn
    → Slots
    → (Conn → Result (Unit {0}) × Slots × Conn)
    → Result (Unit {0}) × Slots × Conn
after_child (ok x, t, c) ts k = let (r, ts', c') = k c in (r, cons t ts', c')
after_child (err e, t, c) ts k = (err e, cons t ts, c)
after_child (stuck, t, c) ts k = (stuck, cons t ts, c)

unfoldable mutual
  pub read_tree : TreeNodeImpl → Conn → Result (Unit {0}) × TreeNodeImpl × Conn
  read_tree (node w cs sp) c = after_value (read_int64 c) cs sp (read_slots cs)

  pub read_slots : Slots → Conn → Result (Unit {0}) × Slots × Conn
  read_slots nil c = (ok tt, nil, c)
  read_slots (cons t ts) c = after_child (read_tree t c) ts (read_slots ts)

unfoldable pub write_mult_tree_request : ℕ → TreeNodeImpl → Io Conn (Unit {0})
write_mult_tree_request m t = do write_int64 m; write_int64 (total_nodes t); write_tree t

-- How often `for i := range n` runs its body: never for a negative `n`.
abbrev pub rounds : ℕ → ℕ
rounds n = if ltb n (2 ^ 63) then n else 0

-- The rounds that are left.
unfoldable pub mult_loop : ℕ → ℕ → Io Conn (Unit {0})
mult_loop zero m = pure tt
mult_loop (suc n) m = do
  val ← map_error (formatted "unable to read value") read_int64
  map_error (formatted "unable to write value") (write_int64 (mul64 val m))
  mult_loop n m

unfoldable pub do_mult_tree_request : Io Conn (Unit {0})
do_mult_tree_request = do
  m ← map_error (formatted "could not read mult") read_int64
  n ← map_error (formatted "could not read totalNodes") read_int64
  mult_loop (rounds n) m

unfoldable pub read_mult_tree_response :
    TreeNodeImpl → Conn → Result (Unit {0}) × TreeNodeImpl × Conn
read_mult_tree_response t c = read_tree t c
