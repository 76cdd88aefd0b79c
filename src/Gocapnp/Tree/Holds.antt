-- ===== src/Gocapnp/Tree/Holds.antt =====
-- What the functions on trees do to a node that holds a tree.
use gorpcbench.Prelude.{
  ℕ, zero, suc, ◌≤◌, ◌<◌, ◌≡◌, refl, sym, ap, ◌∙◌, arith, List, [], ◌∷◌, length,
}
use gorpcbench.Go.Int64.{mul64}
use gorpcbench.Go.Errors.{ok}
use gorpcbench.Rpcbench.Values.{
  Tree, tree, Trees, empty, more, width, Widths, AllWidths, size, size_all, width-scale_all, scale,
  scale_all,
}
use gorpcbench.Go.Loops.{each_pair}
use gorpcbench.Rpcbench.Held.{HoldsTree, AllHoldTrees, length-AllHoldTrees}
use gorpcbench.Gocapnp.Runtime.{Runtime, max_list}
use gorpcbench.Gocapnp.Tree.{mult_tree, copy_tree, each, to_int32}

pub small : (n : ℕ) → n < max_list → to_int32 n ≡ n
small n h = omega arith

module _ (w : Runtime) where
  abbrev pub Holds : w.Node → Tree → Type 0
  Holds = HoldsTree w.value w.children

  abbrev pub AllHold : List w.Node → Trees → Type 0
  AllHold = AllHoldTrees w.value w.children

  length-AllHold : (ts : List w.Node) (us : Trees) → AllHold ts us → length ts ≡ width us
  length-AllHold = length-AllHoldTrees w.value w.children

  module _ (m : ℕ) where
    mutual
      unfolding mult_tree scale size

      mult_run :
          (fuel : ℕ) (u : Tree) (t : w.Node)
          → size u ≤ fuel
          → Holds t u
          → (t' : w.Node) × (mult_tree w fuel m t ≡ ok t') × Holds t' (scale m u)
      mult_run zero (tree v us) t f h = absurd (omega arith)
      mult_run (suc fuel) (tree v us) t f (e, ts, kids, hs) =
          let x : ℕ = mul64 (w.value t) m in
          let t1 : w.Node = w.set_value x t in
          let (ts', run, hs') = mult_all fuel us ts (omega arith) hs in
          let same : length ts' ≡ length ts =
            length-AllHold ts' (scale_all m us) hs'
            ∙ width-scale_all m us
            ∙ sym (length-AllHold ts us hs) in
          (
            w.with_children ts' t1,
            rw (w.children-set x t, kids, run) refl,
            (
              w.value-with ts' t1 ∙ w.value-set x t ∙ ap (λ k. mul64 k m) e,
              ts',
              w.children-with ts ts' t1 (w.children-set x t ∙ kids) same,
              hs',
            ),
          )

      mult_all :
          (fuel : ℕ) (us : Trees) (ts : List w.Node)
          → size_all us ≤ fuel
          → AllHold ts us
          → (ts' : List w.Node) × (each (mult_tree w fuel m) ts ≡ ok ts')
            × AllHold ts' (scale_all m us)
      mult_all fuel empty [] f h = ([], refl, tt)
      mult_all fuel empty (t ∷ ts) f h = absurd h
      mult_all fuel (more u us) [] f h = absurd h
      mult_all fuel (more u us) (t ∷ ts) f (h, hs) =
          let (t', run, h') = mult_run fuel u t (omega arith) h in
          let (ts', runs, hs') = mult_all fuel us ts (omega arith) hs in
          (t' ∷ ts', rw (run, runs) refl, (h', hs'))

  mutual
    unfolding copy_tree size

    copy_run :
        (fuel : ℕ) (u : Tree) (src tgt : w.Node)
        → size u ≤ fuel
        → Holds src u
        → Widths (λ n. n < max_list) u
        → (t : w.Node) × (copy_tree w fuel src tgt ≡ (ok tt, t)) × Holds t u
    copy_run zero (tree v us) src tgt f h wide = absurd (omega arith)
    copy_run (suc fuel) (tree v us) src tgt f (e, ss, kids, hs) (few, wide) =
        let tgt1 : w.Node = w.set_value (w.value src) tgt in
        let n : length ss ≡ width us = length-AllHold ss us hs in
        let (ts, tgt2, made, count, there, kept) =
          w.new_children_lem (length ss) tgt1 (omega arith) in
        let (ts', run, hs') = copy_all fuel us ss ts (omega arith) (sym count) hs wide in
        (
          w.with_children ts' tgt2,
          rw (kids, small (length ss) (omega arith), made, run) refl,
          (
            w.value-with ts' tgt2 ∙ kept ∙ w.value-set (w.value src) tgt ∙ e,
            ts',
            w.children-with ts ts' tgt2 there (length-AllHold ts' us hs' ∙ sym n ∙ sym count),
            hs',
          ),
        )

    copy_all :
        (fuel : ℕ) (us : Trees) (ss ts : List w.Node)
        → size_all us ≤ fuel
        → length ss ≡ length ts
        → AllHold ss us
        → AllWidths (λ n. n < max_list) us
        → (ts' : List w.Node) × (each_pair (copy_tree w fuel) ss ts ≡ (ok tt, ts')) × AllHold ts' us
    copy_all fuel empty [] [] f n h wide = ([], refl, tt)
    copy_all fuel empty [] (t ∷ ts) f n h wide = absurd (omega arith)
    copy_all fuel empty (s ∷ ss) ts f n h wide = absurd h
    copy_all fuel (more u us) [] ts f n h wide = absurd h
    copy_all fuel (more u us) (s ∷ ss) [] f n h wide = absurd (omega arith)
    copy_all fuel (more u us) (s ∷ ss) (t ∷ ts) f n (h, hs) (one, wide) =
        let (t', run, h') = copy_run fuel u s t (omega arith) h one in
        let (ts', runs, hs') = copy_all fuel us ss ts (omega arith) (omega arith) hs wide in
        (t' ∷ ts', rw (run, runs) refl, (h', hs'))

  -- `multTree` on a node that holds a tree multiplies every value of it, and ends within as many
  -- rounds as the tree has nodes.
  pub mult_tree-Holds :
      (m fuel : ℕ) (u : Tree) (t : w.Node)
      → size u ≤ fuel
      → Holds t u
      → (t' : w.Node) × (mult_tree w fuel m t ≡ ok t') × Holds t' (scale m u)
  mult_tree-Holds m fuel u t f h = mult_run m fuel u t f h

  -- `copyTree` of a node that holds a tree, no node of it with 2 ^ 29 children or more, puts the tree
  -- into any node, reports no error, and ends within as many rounds as the tree has nodes.
  pub copy_tree-Holds :
      (fuel : ℕ) (u : Tree) (src tgt : w.Node)
      → size u ≤ fuel
      → Holds src u
      → Widths (λ n. n < max_list) u
      → (t : w.Node) × (copy_tree w fuel src tgt ≡ (ok tt, t)) × Holds t u
  copy_tree-Holds fuel u src tgt f h wide = copy_run fuel u src tgt f h wide
