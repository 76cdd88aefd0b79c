-- ===== src/Rpcbench/Harness/Random.antt =====
-- The random trees and values of the harness.
use gorpcbench.Prelude.{
  ℕ, zero, suc, ◌-◌, ◌/◌, ◌≤◌, ◌<◌, ◌≡◌, refl, ◌∙◌, ◌⊎◌, inl, inr, arith, Option, some,
}
use gorpcbench.Rpcbench.Values.{SameShape, InRange, SameShapes, AllInRange}
use gorpcbench.Rpcbench.Tree.{TreeNodeImpl, node, Slots, nil, cons, init_children, children_count}
use gorpcbench.Rpcbench.Tree.View.{view, views, init_children_lem}
use gorpcbench.Rpcbench.Rng.{Rng}
use gorpcbench.Rpcbench.Harness.{
  populate_with_rand, populate_slots, draw, random_children, grow_children, make_random_tree,
}

module _ (g : Rng) where
  mutual
    unfolding populate_with_rand view

    populate_run :
        (t : TreeNodeImpl) (s : g.Seed)
        → SameShape (view t) (view (populate_with_rand g t s).0)
          × InRange (view (populate_with_rand g t s).0)
    populate_run (node v cs sp) s =
        let (same, fit) = populate_slots_run cs (g.int64 s).1 in (same, (g.int64_range s, fit))

    populate_slots_run :
        (cs : Slots) (s : g.Seed)
        → SameShapes (views cs) (views (populate_slots g cs s).0)
          × AllInRange (views (populate_slots g cs s).0)
    populate_slots_run nil s = (tt, tt)
    populate_slots_run (cons t ts) s =
        let (same, fit) = populate_run t s in
        let (sames, fits) = populate_slots_run ts (populate_with_rand g t s).1 in
        ((same, sames), (fit, fits))

  -- `populateWithRand` sets every value of the tree to an `int64` and leaves its shape alone.
  pub populate_with_rand_lem :
      (t : TreeNodeImpl) (s : g.Seed)
      → SameShape (view t) (view (populate_with_rand g t s).0)
        × InRange (view (populate_with_rand g t s).0)
  populate_with_rand_lem t s = populate_run t s

  pub draw-some : (n : ℕ) (s : g.Seed) → 0 < n → draw g n s ≡ some (g.int_n n s)
  unfolding draw
  draw-some zero s h = absurd (omega arith)
  draw-some (suc n) s h = refl

  module _ (grow : ℕ → TreeNodeImpl → g.Seed → Option (TreeNodeImpl × g.Seed))
      (grows : (b : ℕ) (t : TreeNodeImpl) (s : g.Seed)
        → (r : TreeNodeImpl × g.Seed) × (grow b t s ≡ some r)) where
    children_grow :
        (b : ℕ) (cs : Slots) (s : g.Seed)
        → 2 ≤ b
        → (r : Slots × g.Seed) × (random_children g grow b cs s ≡ some r)
    unfolding random_children
    children_grow b nil s h = ((nil, s), refl)
    children_grow b (cons t ts) s h =
        let (k, s1) = g.int_n (b / 2) s in
        let ((t', s2), e) = grows (b - k) t s1 in
        let ((ts', s3), f) = children_grow b ts s2 h in
        ((cons t' ts', s3), rw (draw-some (b / 2) s (omega arith), e, f))

    grow_children-some :
        (b : ℕ) (t : TreeNodeImpl) (s : g.Seed)
        → (2 ≤ b) ⊎ (children_count t ≡ 0)
        → (r : TreeNodeImpl × g.Seed) × (grow_children g grow b t s ≡ some r)
    unfolding children_count random_children
    grow_children-some b (node v nil sp) s h = ((node v nil sp, s), refl)
    grow_children-some b (node v (cons c cs) sp) s (inr h) = absurd (omega arith)
    grow_children-some b (node v (cons c cs) sp) s (inl h) =
        let ((cs', s'), e) = children_grow b (cons c cs) s h in ((node v cs' sp, s'), rw e)

  enough_branches :
      (b : ℕ) (t : TreeNodeImpl) (s : g.Seed)
      → (2 ≤ suc b) ⊎ (children_count (init_children (g.int_n (suc b) s).0 t) ≡ 0)
  enough_branches zero t s =
      inr ((init_children_lem (g.int_n 1 s).0 t).0 ∙ omega (arith, g.int_n_range 1 s (omega arith)))
  enough_branches (suc b) t s = inl (omega arith)

  -- `makeRandomTree` never panics, whatever is drawn: where `IntN(branching/2)` would, at
  -- `branching` 1, the loop that draws it has no rounds.
  pub make_random_tree_total :
      (level branching : ℕ) (t : TreeNodeImpl) (s : g.Seed)
      → (r : TreeNodeImpl × g.Seed) × (make_random_tree g level branching t s ≡ some r)
  unfolding make_random_tree
  make_random_tree_total zero b t s = ((t, s), refl)
  make_random_tree_total (suc level) zero t s = ((t, s), refl)
  make_random_tree_total (suc level) (suc b) t s =
      let (r, e) =
        grow_children-some (make_random_tree g level) (make_random_tree_total level) (suc b)
          (init_children (g.int_n (suc b) s).0 t) (g.int_n (suc b) s).1 (enough_branches b t s) in
      (r, rw (draw-some (suc b) s (omega arith), e))
