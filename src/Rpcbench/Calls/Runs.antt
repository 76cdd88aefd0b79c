-- ===== src/Rpcbench/Calls/Runs.antt =====
-- A benchmark client over a correct system: no call reports an error.
use mathlib.Core.Path.{subst}
use gorpcbench.Prelude.{
  ℕ, zero, suc, ◌*◌, ◌<◌, ◌≡◌, refl, arith, List, [], ◌∷◌, length, All, some, get_elem?, set,
  length-set,
}
use gorpcbench.Go.Int64.{IsCount, add64}
use gorpcbench.Go.Errors.{ok}
use gorpcbench.Go.Binary.{IsByte}
use gorpcbench.Go.Hex.{encode, decode-encode}
use gorpcbench.Rpcbench.Limits.{max_hex_encode_size}
use gorpcbench.Rpcbench.Values.{Tree, size, size-SameShape}
use gorpcbench.Rpcbench.Tree.{TreeNodeImpl}
use gorpcbench.Rpcbench.Tree.View.{view}
use gorpcbench.Rpcbench.Client.{Client, IsCorrect}
use gorpcbench.Rpcbench.Rng.{Rng}
use gorpcbench.Rpcbench.Harness.{populate_with_rand}
use gorpcbench.Rpcbench.Harness.Random.{populate_with_rand_lem, draw-some}
use gorpcbench.Rpcbench.Calls.{
  ClientCall, nop, add, tree_mult, to_hex, BenchClient, check_nop, call_tree, choose_tree,
  make_call, fill_request_tree,
}
use gorpcbench.Rpcbench.Calls.Checks.{
  hex_bytes, check_add_iff, check_tree_complete, check_hex_complete,
}

-- The bytes that a call is taken to move.
unfoldable pub call_bytes : ClientCall → ℕ
call_bytes to_hex = hex_bytes
call_bytes _ = 0

-- A tree whose nodes an `int64` counts, and that fits the system's messages.
abbrev pub Fits : (Tree → Type 0) → TreeNodeImpl → Type 0
Fits Allows t = IsCount (size (view t)) × Allows (view t)

module _ {ℓ} (P : TreeNodeImpl → Type ℓ) where
  elem-All :
      (ts : List TreeNodeImpl) (i : ℕ)
      → All P ts
      → i < length ts
      → (t : TreeNodeImpl) × (get_elem? ts i ≡ some t) × P t
  elem-All [] i h p = absurd (omega arith)
  elem-All (t ∷ ts) zero (h, hs) p = (t, refl, h)
  elem-All (t ∷ ts) (suc i) (h, hs) p = elem-All ts i hs (omega arith)

  set-All :
      (ts : List TreeNodeImpl) (i : ℕ) (t : TreeNodeImpl) → All P ts → P t → All P (set ts i t)
  set-All [] i t h p = tt
  set-All (u ∷ us) zero t (h, hs) p = (p, hs)
  set-All (u ∷ us) (suc i) t (h, hs) p = (h, set-All us i t hs p)

module _ (c : Client) (g : Rng) (Ready : c.State → Type 0) where
  -- A client between calls, with some test tree.
  pub record IsValid (b : BenchClient c g) : Type 0 where
    pub ready : Ready b.state
    pub some_tree : 0 < length b.trees
    pub fits : All (Fits c.Allows) b.trees

module _ (c : Client) (g : Rng) (Ready : c.State → Type 0) (right : IsCorrect c Ready) where
  Runs : ClientCall → BenchClient c g → Type 0
  Runs call b =
      (b' : BenchClient c g) × (make_call c g call b ≡ (ok (call_bytes call), b'))
      × IsValid c g Ready b'

  run_nop : (b : BenchClient c g) → IsValid c g Ready b → Runs nop b
  unfolding Runs make_call check_nop call_bytes
  run_nop b h =
      let (s', e, ready) = right.nop_ok b.state h.ready in
      (
        record b { state = s' },
        rw e,
        record { ready = ready; some_tree = h.some_tree; fits = h.fits },
      )

  run_add : (b : BenchClient c g) → IsValid c g Ready b → Runs add b
  unfolding Runs make_call call_bytes
  run_add b h =
      let (x, s1) = g.int64 b.rng in
      let (y, s2) = g.int64 s1 in
      let (s', e, ready) =
        right.add_ok x y b.state (g.int64_range b.rng) (g.int64_range s1) h.ready in
      (
        record b { state = s'; rng = s2 },
        rw (e, (check_add_iff c g x y (ok (add64 x y))).1 refl),
        record { ready = ready; some_tree = h.some_tree; fits = h.fits },
      )

  run_hex : (b : BenchClient c g) → IsValid c g Ready b → Runs to_hex b
  unfolding Runs make_call call_bytes
  run_hex b h =
      let (size, s1) = g.int_n max_hex_encode_size b.rng in
      let (input, s2) = g.read size b.reader in
      let n : length input ≡ size = g.length-read size b.reader in
      let bytes : All IsByte input = g.read_range size b.reader in
      let small : length input < max_hex_encode_size =
        omega (arith, g.int_n_range max_hex_encode_size b.rng (omega arith), n) in
      let (s', e, ready) = right.hex_ok input b.state bytes small h.ready in
      let e' : c.to_hex input (size * 2) b.state ≡ (ok (encode input), s') =
        subst (λ k. c.to_hex input (k * 2) b.state ≡ (ok (encode input), s')) n e in
      (
        record b { state = s'; rng = s1; reader = s2 },
        rw (e', check_hex_complete c g input (encode input) (decode-encode input bytes)),
        record { ready = ready; some_tree = h.some_tree; fits = h.fits },
      )

  run_tree : (b : BenchClient c g) → IsValid c g Ready b → Runs tree_mult b
  unfolding Runs make_call choose_tree call_tree call_bytes
  run_tree b h =
      let n : ℕ = length b.trees in
      let (i, s1) = g.int_n n b.rng in
      let (mult, s2) = g.int64 s1 in
      let (old, at, (count, allowed)) =
        elem-All (Fits c.Allows) b.trees i h.fits (g.int_n_range n b.rng h.some_tree) in
      let (tgt, s3) = populate_with_rand g old s2 in
      let (same, fit) = populate_with_rand_lem g old s2 in
      let size_tgt : IsCount (size (view tgt)) =
        omega (arith, size-SameShape (view old) (view tgt) same) in
      let allowed_tgt : c.Allows (view tgt) = right.reshape (view old) (view tgt) same allowed in
      let (u, s', e, right_tree, ready) =
        right.mult_ok mult (fill_request_tree c g tgt) (view tgt) b.state (g.int64_range s1)
          (λ t. right.copy_fills tgt t allowed_tgt) fit allowed_tgt size_tgt h.ready in
      (
        record b { state = s'; rng = s3; trees = set b.trees i tgt; chosen = i },
        rw (draw-some g n b.rng h.some_tree, at, e, check_tree_complete c g tgt mult u right_tree),
        record {
          ready = ready;
          some_tree = omega (arith, length-set b.trees i tgt, h.some_tree);
          fits = set-All (Fits c.Allows) b.trees i tgt h.fits (size_tgt, allowed_tgt);
        },
      )

  -- Over a system that answers as the interface asks, `makeCall` on a valid client (ready, with
  -- some test tree, each of fewer than 2 ^ 63 nodes and within
  -- the system's limits) reports no error on any call, and the client is
  -- valid again for the next.
  pub make_call_lem :
      (call : ClientCall) (b : BenchClient c g)
      → IsValid c g Ready b
      → (b' : BenchClient c g) × (make_call c g call b ≡ (ok (call_bytes call), b'))
        × IsValid c g Ready b'
  unfolding Runs
  make_call_lem nop b h = run_nop b h
  make_call_lem add b h = run_add b h
  make_call_lem tree_mult b h = run_tree b h
  make_call_lem to_hex b h = run_hex b h
