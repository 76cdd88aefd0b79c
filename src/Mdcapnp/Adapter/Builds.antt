-- ===== src/Mdcapnp/Adapter/Builds.antt =====
-- What is filled into a builder adapter is in the message.
use mathlib.Core.Path.{subst}
use gorpcbench.Prelude.{◌<◌, ◌≡◌, refl, sym, ap, ◌∙◌, arith, List, [], ◌∷◌, map, length, length-map}
use gorpcbench.Rpcbench.Values.{Widths, AllWidths}
use gorpcbench.Rpcbench.Tree.{TreeNodeImpl, node, Slots, nil, cons, count}
use gorpcbench.Rpcbench.Tree.View.{view, views}
use gorpcbench.Rpcbench.TreeNode.{copy_tree, copy_slots}
use gorpcbench.Rpcbench.TreeNode.Copy.{count-width, length-copy_slots}
use gorpcbench.Mdcapnp.Ser.{Ser, max_list}
use gorpcbench.Mdcapnp.Api.{tree_node_size, TreeNodeBuilder, value, children, set_value}
use gorpcbench.Mdcapnp.Adapter.{
  wrap, slots_of, adapter_children, resized, BuilderAdapter, set_node_value, over, built, all_built,
  put_built,
}
use gorpcbench.Mdcapnp.Adapter.Node.{builder_node, init_node, init_ok, length_init, with_adapters}
use gorpcbench.Mdcapnp.Server.Trees.{Holds, AllHold}

module _ (w : Ser) (none : TreeNodeBuilder w) where
  all_built-slots_of : (xs : List (BuilderAdapter w)) → all_built w (slots_of xs) ≡ map (built w) xs
  unfolding built
  all_built-slots_of [] = refl
  all_built-slots_of (x ∷ xs) = ap (λ ys. built w x ∷ ys) (all_built-slots_of xs)

  over_all : (bs cs : List (TreeNodeBuilder w)) → length cs ≡ length bs → over w bs cs ≡ cs
  over_all [] [] h = refl
  over_all [] (c ∷ cs) h = absurd (omega arith)
  over_all (b ∷ bs) [] h = absurd (omega arith)
  over_all (b ∷ bs) (c ∷ cs) h = ap (λ ds. c ∷ ds) (over_all bs cs (omega arith))

  abbrev messages : List (BuilderAdapter w) → List w.Struct
  messages xs = map w.reader (map (built w) xs)

  -- A node with its value set gets the children of a source.
  abbrev filled : Slots → BuilderAdapter w → BuilderAdapter w
  filled cs a =
      let a1 = init_node w none (count cs) a in
      with_adapters w none (copy_slots (builder_node w none) cs (adapter_children a1)) a1

  mutual
    unfolding copy_tree view built set_node_value set_value value children

    copy_builds :
        (src : TreeNodeImpl) (a : BuilderAdapter w)
        → Widths (λ n. n < max_list) (view src)
        → Holds w (w.reader (built w (copy_tree (builder_node w none) src a))) (view src)
    copy_builds (node v cs sp) (wrap b ds ts) (fits, wide) =
        let (b0, put, here, rest) = w.set_int64_lem 0 v b (omega arith) in
        let n : count cs < max_list = omega (arith, count-width cs) in
        let (bs, b', made, few, there, kept) = init_ok w none (count cs) b0 ds ts n in
        let to1 : BuilderAdapter w = init_node w none (count cs) (wrap b0 ds ts) in
        let k : length (adapter_children to1) ≡ count cs =
          length_init w none (count cs) (wrap b0 ds ts) n in
        let xs : List (BuilderAdapter w) =
          copy_slots (builder_node w none) cs (adapter_children to1) in
        let same : length (map (built w) xs) ≡ length bs =
          length-map xs (built w)
          ∙ length-copy_slots (builder_node w none) cs (adapter_children to1) k
          ∙ k
          ∙ sym few in
        let ys : List (TreeNodeBuilder w) = map (built w) xs in
        let shape : copy_tree (builder_node w none) (node v cs sp) (wrap b ds ts)
            ≡ wrap b' (slots_of xs) (resized none (count cs) ds ts).1 =
          ap (λ x. filled cs (wrap x.1 ds ts)) put ∙ ap (λ p. with_adapters w none xs p.1) made in
        let sent : built w (wrap b' (slots_of xs) (resized none (count cs) ds ts).1)
            ≡ w.with_list tree_node_size 0 ys b' =
          ap (λ o. put_built w o (all_built w (slots_of xs)) b') there
          ∙ ap (λ l. w.with_list tree_node_size 0 (over w bs l) b') (all_built-slots_of xs)
          ∙ ap (λ l. w.with_list tree_node_size 0 l b') (over_all bs ys same) in
        subst (λ x. Holds w (w.reader x) (view (node v cs sp))) (sym (ap (built w) shape ∙ sent))
          (
            w.int64-with_list tree_node_size 0 0 ys b' ∙ kept ∙ here,
            map w.reader ys,
            w.list-with_list tree_node_size 0 bs ys b' there same,
            slots_build cs (adapter_children to1) k wide,
          )

    slots_build :
        (cs : Slots) (xs : List (BuilderAdapter w))
        → length xs ≡ count cs
        → AllWidths (λ n. n < max_list) (views cs)
        → AllHold w (messages (copy_slots (builder_node w none) cs xs)) (views cs)
    slots_build nil [] h wide = tt
    slots_build nil (x ∷ xs) h wide = absurd (omega arith)
    slots_build (cons c cs) [] h wide = absurd (omega arith)
    slots_build (cons c cs) (x ∷ xs) h (fits, wide) =
        (copy_builds c x fits, slots_build cs xs (omega arith) wide)

  -- `copyTree` into a builder adapter puts the source's tree into the message, whatever children the
  -- adapter has from a message before, when no node of the source has 2 ^ 29 children or more.
  pub built-copy_tree :
      (src : TreeNodeImpl) (a : BuilderAdapter w)
      → Widths (λ n. n < max_list) (view src)
      → Holds w (w.reader (built w (copy_tree (builder_node w none) src a))) (view src)
  built-copy_tree src a wide = copy_builds src a wide
