-- ===== src/Rpcbench/TreeNode/Matches.antt =====
-- What `treeMatchesForMult` accepts.
use gorpcbench.Prelude.{ℕ, ◌≡◌, refl, arith, true, List, [], ◌∷◌, length, ◌↔◌}
use gorpcbench.Rpcbench.Values.{scale, scale_all}
use gorpcbench.Rpcbench.Tree.{TreeNodeImpl, node, Slots, nil, cons, count}
use gorpcbench.Rpcbench.Tree.View.{view, views}
use gorpcbench.Rpcbench.TreeNode.{
  TreeReader, StandsFor, AllStand, tree_matches_for_mult, slots_match,
}

module _ {T : Type 0} (R : TreeReader T) where
  mutual
    unfolding tree_matches_for_mult view scale

    match_sound :
        (src : T) (tgt : TreeNodeImpl) (m : ℕ)
        → tree_matches_for_mult R src tgt m ≡ true
        → StandsFor R src (scale m (view tgt))
    match_sound src (node v cs sp) m h =
        (ground arith, slots_sound (R.children src) cs m (ground arith) (ground arith))

    slots_sound :
        (ts : List T) (cs : Slots) (m : ℕ)
        → length ts ≡ count cs
        → slots_match R ts cs m ≡ true
        → AllStand R ts (scale_all m (views cs))
    slots_sound [] nil m n h = tt
    slots_sound (t ∷ ts) nil m n h = absurd (omega arith)
    slots_sound [] (cons c cs) m n h = absurd (omega arith)
    slots_sound (t ∷ ts) (cons c cs) m n h =
        (match_sound t c m (ground arith), slots_sound ts cs m (omega arith) (ground arith))

  mutual
    unfolding tree_matches_for_mult view scale

    match_complete :
        (src : T) (tgt : TreeNodeImpl) (m : ℕ)
        → StandsFor R src (scale m (view tgt))
        → tree_matches_for_mult R src tgt m ≡ true
    match_complete src (node v cs sp) m (h, hs) =
        ground (arith, slots_complete (R.children src) cs m hs)

    slots_complete :
        (ts : List T) (cs : Slots) (m : ℕ)
        → AllStand R ts (scale_all m (views cs))
        → (length ts ≡ count cs) × (slots_match R ts cs m ≡ true)
    slots_complete [] nil m h = (refl, refl)
    slots_complete (t ∷ ts) nil m h = absurd h
    slots_complete [] (cons c cs) m h = absurd h
    slots_complete (t ∷ ts) (cons c cs) m (h, hs) =
        ground (arith, match_complete t c m h, slots_complete ts cs m hs)

  -- `treeMatchesForMult` accepts exactly the trees with the target's shape and with every value
  -- of the target multiplied.
  pub tree_matches_for_mult_iff :
      (src : T) (tgt : TreeNodeImpl) (m : ℕ)
      → (tree_matches_for_mult R src tgt m ≡ true) ↔ StandsFor R src (scale m (view tgt))
  tree_matches_for_mult_iff src tgt m = (match_sound src tgt m, match_complete src tgt m)
