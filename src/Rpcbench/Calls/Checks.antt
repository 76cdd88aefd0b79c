-- ===== src/Rpcbench/Calls/Checks.antt =====
-- What the checks of `makeCall` accept.
use gorpcbench.Prelude.{ℕ, ◌+◌, ◌*◌, ◌≡◌, refl, ap, ◌↔◌, arith, true, ==-self, List, [], ◌∷◌}
use gorpcbench.Go.Int64.{add64}
use gorpcbench.Go.Errors.{Result, ok, err, stuck}
use gorpcbench.Go.Hex.{decode}
use gorpcbench.Rpcbench.Limits.{max_hex_encode_size}
use gorpcbench.Rpcbench.Values.{scale}
use gorpcbench.Rpcbench.Tree.{TreeNodeImpl}
use gorpcbench.Rpcbench.Tree.View.{view}
use gorpcbench.Rpcbench.TreeNode.{StandsFor}
use gorpcbench.Rpcbench.TreeNode.Matches.{tree_matches_for_mult_iff}
use gorpcbench.Rpcbench.Client.{Client}
use gorpcbench.Rpcbench.Rng.{Rng}
use gorpcbench.Rpcbench.Calls.{bytes_equal, check_add, check_tree, check_decoded, check_hex}

bytes_equal→eq : (xs ys : List ℕ) → bytes_equal xs ys ≡ true → xs ≡ ys
bytes_equal→eq [] [] h = refl
bytes_equal→eq [] (y ∷ ys) h = cc
bytes_equal→eq (x ∷ xs) [] h = cc
bytes_equal→eq (x ∷ xs) (y ∷ ys) h = ground (arith, bytes_equal→eq xs ys)

pub bytes_equal_self : (xs : List ℕ) → bytes_equal xs xs ≡ true
bytes_equal_self [] = refl
bytes_equal_self (x ∷ xs) = rw (==-self x) (bytes_equal_self xs)

-- The bytes that a call of `ToHex` is taken to move: the length of both buffers.
abbrev pub hex_bytes : ℕ
hex_bytes = max_hex_encode_size + max_hex_encode_size * 2

module _ (c : Client) (g : Rng) where
  -- The check of `Add` accepts the sum and nothing else.
  pub check_add_iff : (a b : ℕ) (r : Result ℕ) → (check_add c g a b r ≡ ok 0) ↔ (r ≡ ok (add64 a b))
  unfolding check_add
  check_add_iff a b (ok res) = (λ h. ground arith, λ h. ground arith)
  check_add_iff a b (err e) = (λ h. cc, λ h. cc)
  check_add_iff a b stuck = (λ h. cc, λ h. cc)

  check_tree_sound :
      (tgt : TreeNodeImpl) (m : ℕ) (r : Result c.Res)
      → check_tree c g tgt m r ≡ ok 0
      → (u : c.Res) × (r ≡ ok u) × StandsFor c.res u (scale m (view tgt))
  unfolding check_tree
  check_tree_sound tgt m (ok u) h =
      (u, refl, (tree_matches_for_mult_iff c.res u tgt m).0 (ground arith))
  check_tree_sound tgt m (err e) h = cc
  check_tree_sound tgt m stuck h = cc

  pub check_tree_complete :
      (tgt : TreeNodeImpl) (m : ℕ) (u : c.Res)
      → StandsFor c.res u (scale m (view tgt))
      → check_tree c g tgt m (ok u) ≡ ok 0
  unfolding check_tree
  check_tree_complete tgt m u h = rw ((tree_matches_for_mult_iff c.res u tgt m).1 h)

  -- The check of `MultTreeValues` accepts exactly the trees of the shape that was sent, with every
  -- value multiplied.
  pub check_tree_iff :
      (tgt : TreeNodeImpl) (m : ℕ) (r : Result c.Res)
      → (check_tree c g tgt m r ≡ ok 0)
        ↔ ((u : c.Res) × (r ≡ ok u) × StandsFor c.res u (scale m (view tgt)))
  check_tree_iff tgt m r =
      (check_tree_sound tgt m r, λ (u, e, h). rw e (check_tree_complete tgt m u h))

  check_hex_sound :
      (input : List ℕ) (r : Result (List ℕ))
      → check_hex c g input r ≡ ok hex_bytes
      → (out : List ℕ) × (r ≡ ok out) × (decode out ≡ ok input)
  unfolding check_hex
  check_hex_sound input (ok out) h = (out, refl, decoded (decode out) h)
    where
      decoded : (d : Result (List ℕ)) → check_decoded c g input d ≡ ok hex_bytes → d ≡ ok input
      decoded (ok bs) h = ap ok (bytes_equal→eq bs input (ground arith))
      decoded (err e) h = cc
      decoded stuck h = cc
  check_hex_sound input (err e) h = cc
  check_hex_sound input stuck h = cc

  pub check_hex_complete :
      (input out : List ℕ) → decode out ≡ ok input → check_hex c g input (ok out) ≡ ok hex_bytes
  unfolding check_hex
  check_hex_complete input out h = rw (h, bytes_equal_self input)

  -- The check of `ToHex` accepts exactly the texts that decode to the input.
  pub check_hex_iff :
      (input : List ℕ) (r : Result (List ℕ))
      → (check_hex c g input r ≡ ok hex_bytes)
        ↔ ((out : List ℕ) × (r ≡ ok out) × (decode out ≡ ok input))
  check_hex_iff input r =
      (check_hex_sound input r, λ (out, e, h). rw e (check_hex_complete input out h))
