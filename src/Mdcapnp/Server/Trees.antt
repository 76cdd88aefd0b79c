-- ===== src/Mdcapnp/Server/Trees.antt =====
-- `multTree` on the tree of a request.
use gorpcbench.Prelude.{
  ℕ, zero, suc, ◌≤◌, ◌<◌, ◌≡◌, refl, sym, ap, ◌∙◌, arith, List, [], ◌∷◌, map, length, length-map,
}
use gorpcbench.Go.Int64.{mul64}
use gorpcbench.Go.Errors.{ok}
use gorpcbench.Go.Loops.{each_pair}
use gorpcbench.Rpcbench.Values.{
  Tree, tree, Trees, empty, more, width, width-scale_all, Widths, AllWidths, size, size_all, scale,
  scale_all,
}
use gorpcbench.Rpcbench.Held.{HoldsTree, AllHoldTrees, length-AllHoldTrees}
use gorpcbench.Mdcapnp.Ser.{Ser, max_list}
use gorpcbench.Mdcapnp.Api.{
  tree_node_size, TreeNodeBuilder, value, children, set_value, new_children,
}
use gorpcbench.Mdcapnp.Server.{mult_tree}

module _ (w : Ser) where
  abbrev pub Holds : w.Struct → Tree → Type 0
  Holds = HoldsTree (value w) (children w)

  abbrev pub AllHold : List w.Struct → Trees → Type 0
  AllHold = AllHoldTrees (value w) (children w)

  length-AllHold : (ts : List w.Struct) (us : Trees) → AllHold ts us → length ts ≡ width us
  length-AllHold = length-AllHoldTrees (value w) (children w)

  module _ (m : ℕ) where
    mutual
      unfolding mult_tree set_value new_children value children scale size

      mult_run :
          (fuel : ℕ) (u : Tree) (t : w.Struct) (out : TreeNodeBuilder w)
          → size u ≤ fuel
          → Widths (λ n. n < max_list) u
          → Holds t u
          → (b : TreeNodeBuilder w) × (mult_tree w fuel m t out ≡ (ok tt, b))
            × Holds (w.reader b) (scale m u)
      mult_run zero (tree v us) t out f wide h = absurd (omega arith)
      mult_run (suc fuel) (tree v us) t out f (few, wide) (e, ts, kids, hs) =
          let x : ℕ = mul64 (value w t) m in
          let n : length ts ≡ width us = length-AllHold ts us hs in
          let (out1, put, here, rest) = w.set_int64_lem 0 x out (omega arith) in
          let (bs, out2, made, count, there, kept) =
            w.new_list_lem tree_node_size 0 (length ts) out1 (omega arith) (omega arith) in
          let (bs', run, hs') = mult_all fuel us ts bs (omega arith) (sym count) wide hs in
          let same : length bs' ≡ length bs =
            sym (length-map bs' w.reader)
            ∙ length-AllHold (map w.reader bs') (scale_all m us) hs'
            ∙ width-scale_all m us
            ∙ sym n
            ∙ sym count in
          (
            w.with_list tree_node_size 0 bs' out2,
            rw (kids, put, made, run) refl,
            (
              w.int64-with_list tree_node_size 0 0 bs' out2 ∙ kept 0 ∙ here ∙ ap (λ k. mul64 k m) e,
              map w.reader bs',
              w.list-with_list tree_node_size 0 bs bs' out2 there same,
              hs',
            ),
          )

      mult_all :
          (fuel : ℕ) (us : Trees) (ts : List w.Struct) (bs : List (TreeNodeBuilder w))
          → size_all us ≤ fuel
          → length ts ≡ length bs
          → AllWidths (λ n. n < max_list) us
          → AllHold ts us
          → (bs' : List (TreeNodeBuilder w)) × (each_pair (mult_tree w fuel m) ts bs ≡ (ok tt, bs'))
            × AllHold (map w.reader bs') (scale_all m us)
      mult_all fuel empty [] [] f n wide h = ([], refl, tt)
      mult_all fuel empty [] (b ∷ bs) f n wide h = absurd (omega arith)
      mult_all fuel empty (t ∷ ts) bs f n wide h = absurd h
      mult_all fuel (more u us) [] bs f n wide h = absurd h
      mult_all fuel (more u us) (t ∷ ts) [] f n wide h = absurd (omega arith)
      mult_all fuel (more u us) (t ∷ ts) (b ∷ bs) f n (one, wide) (h, hs) =
          let (b', run, h') = mult_run fuel u t b (omega arith) one h in
          let (bs', runs, hs') = mult_all fuel us ts bs (omega arith) (omega arith) wide hs in
          (b' ∷ bs', rw (run, runs) refl, (h', hs'))

  -- `multTree` of a node that holds a tree, no node of it with 2 ^ 29 children or more, writes the
  -- tree with every value multiplied into any builder, reports no error, and ends within as many
  -- rounds as the tree has nodes.
  pub mult_tree_into-Holds :
      (m fuel : ℕ) (u : Tree) (t : w.Struct) (out : TreeNodeBuilder w)
      → size u ≤ fuel
      → Widths (λ n. n < max_list) u
      → Holds t u
      → (b : TreeNodeBuilder w) × (mult_tree w fuel m t out ≡ (ok tt, b))
        × Holds (w.reader b) (scale m u)
  mult_tree_into-Holds m fuel u t out f wide h = mult_run m fuel u t out f wide h
