-- ===== src/Rpcbench/Calls.antt =====
-- rpcbench/bench_harness.go and rpcbench/bench_runner.go: the calls of the benchmark, the state of
-- one of its clients, and `makeCall`, which makes a call and checks its result.
pub mod Checks
pub mod Runs
use gorpcbench.Prelude.{
  ℕ, zero, suc, ◌+◌, ◌*◌, ◌==◌, if◌then◌else◌, Bool, true, false, ◌&&◌, String, List, [], ◌∷◌,
  length, get_elem?, set, Option, none, some,
}
use gorpcbench.Go.Int64.{add64}
use gorpcbench.Go.Errors.{Error, text, formatted, Result, ok, err, stuck}
use gorpcbench.Go.Hex.{decode}
use gorpcbench.Rpcbench.Limits.{max_hex_encode_size}
use gorpcbench.Rpcbench.Tree.{TreeNodeImpl}
use gorpcbench.Rpcbench.TreeNode.{copy_tree, tree_matches_for_mult}
use gorpcbench.Rpcbench.Client.{Client}
use gorpcbench.Rpcbench.Rng.{Rng}
use gorpcbench.Rpcbench.Harness.{draw, populate_with_rand}

pub data ClientCall : Type 0 where
  nop add tree_mult to_hex : ClientCall

unfoldable pub call_name : ClientCall → String
call_name nop = "nop"
call_name add = "add"
call_name tree_mult = "tree"
call_name to_hex = "hex"

unfoldable pub client_call_matrix : List ClientCall
client_call_matrix = nop ∷ add ∷ tree_mult ∷ to_hex ∷ []

-- `bytes.Equal`
abbrev pub bytes_equal : List ℕ → List ℕ → Bool
bytes_equal [] [] = true
bytes_equal [] (y ∷ ys) = false
bytes_equal (x ∷ xs) [] = false
bytes_equal (x ∷ xs) (y ∷ ys) = if x == y then bytes_equal xs ys else false

module _ (c : Client) (g : Rng) where
  -- `rng` and `reader` are the client's two generators. Of the three buffers only the lengths are
  -- state: a call writes each part of them before it reads it.
  pub record BenchClient : Type 0 where
    pub state : c.State
    pub rng : g.Seed
    pub reader : g.Seed
    pub trees : List TreeNodeImpl
    pub chosen : ℕ

  -- `fillRequestTree` for the tree that was chosen.
  abbrev pub fill_request_tree : TreeNodeImpl → c.Args → c.Args
  fill_request_tree tgt node = copy_tree c.args tgt node

  unfoldable pub check_nop : Result (Unit {0}) → Result ℕ
  check_nop (ok x) = ok 0
  check_nop (err e) = err e
  check_nop stuck = stuck

  unfoldable pub check_add : ℕ → ℕ → Result ℕ → Result ℕ
  check_add a b (ok res) = if res == add64 a b then ok 0 else err (text "wrong result")
  check_add a b (err e) = err e
  check_add a b stuck = stuck

  unfoldable pub check_tree : TreeNodeImpl → ℕ → Result c.Res → Result ℕ
  check_tree tgt mult (ok res) =
      if tree_matches_for_mult c.res res tgt mult
      then ok 0
      else err (text "mismatch in request and response trees")
  check_tree tgt mult (err e) = err e
  check_tree tgt mult stuck = stuck

  abbrev pub check_decoded : List ℕ → Result (List ℕ) → Result ℕ
  check_decoded input (ok bs) =
      if bytes_equal bs input
      then ok (max_hex_encode_size + max_hex_encode_size * 2)
      else err (text "mismatch in request and response hex")
  check_decoded input (err e) = err (formatted "unable to decode hex out buf" e)
  check_decoded input stuck = stuck

  unfoldable pub check_hex : List ℕ → Result (List ℕ) → Result ℕ
  check_hex input (ok out) = check_decoded input (decode out)
  check_hex input (err e) = err e
  check_hex input stuck = stuck

  -- The call on the tree that was chosen; an index that is out of range panics.
  unfoldable pub call_tree : Option TreeNodeImpl → ℕ → ℕ → BenchClient → Result ℕ × BenchClient
  call_tree none i mult b = (stuck, b)
  call_tree (some old) i mult b =
      let (tgt, rng') = populate_with_rand g old b.rng in
      let (r, s') = c.mult_tree_values mult (fill_request_tree tgt) b.state in
      (
        check_tree tgt mult r,
        record b { state = s'; rng = rng'; trees = set b.trees i tgt; chosen = i },
      )

  unfoldable pub choose_tree : Option (ℕ × g.Seed) → BenchClient → Result ℕ × BenchClient
  choose_tree none b = (stuck, b)
  choose_tree (some (i, s)) b =
      let (mult, s') = g.int64 s in call_tree (get_elem? b.trees i) i mult (record b { rng = s' })

  -- The bytes that the call is taken to move, or the error that the benchmark reports.
  unfoldable pub make_call : ClientCall → BenchClient → Result ℕ × BenchClient
  make_call nop b = let (r, s') = c.nop b.state in (check_nop r, record b { state = s' })
  make_call add b =
      let (x, s1) = g.int64 b.rng in
      let (y, s2) = g.int64 s1 in
      let (r, s') = c.add x y b.state in (check_add x y r, record b { state = s'; rng = s2 })
  make_call tree_mult b = choose_tree (draw g (length b.trees) b.rng) b
  make_call to_hex b =
      let (size, s1) = g.int_n max_hex_encode_size b.rng in
      let (input, s2) = g.read size b.reader in
      let (r, s') = c.to_hex input (size * 2) b.state in
      (check_hex input r, record b { state = s'; rng = s1; reader = s2 })
