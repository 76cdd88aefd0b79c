-- ===== src/Rpcbench/TreeNode/Copy.antt =====
-- What `copyTree` makes.
use mathlib.Core.Path.{subst}
use gorpcbench.Prelude.{suc, ◌≡◌, refl, sym, ap, ◌∙◌, arith, List, [], ◌∷◌, length}
use gorpcbench.Rpcbench.Values.{width, Widths, AllWidths}
use gorpcbench.Rpcbench.Tree.{TreeNodeImpl, node, Slots, nil, cons, count}
use gorpcbench.Rpcbench.Tree.View.{view, views}
use gorpcbench.Rpcbench.TreeNode.{TreeNode, StandsFor, AllStand, copy_tree, copy_slots}

pub count-width : (cs : Slots) → count cs ≡ width (views cs)
unfolding view
count-width nil = refl
count-width (cons t ts) = ap suc (count-width ts)

module _ {T : Type 0} (I : TreeNode T) where
  mutual
    unfolding copy_tree view

    copy_stands :
        (src : TreeNodeImpl) (t : T)
        → Widths I.Allows (view src)
        → StandsFor I.reader (copy_tree I src t) (view src)
    copy_stands (node v cs sp) t (fits, all) =
        let to0 : T = I.set_value v t in
        let to1 : T = I.init_children (count cs) to0 in
        let ws : List T = copy_slots I cs (I.reader.children to1) in
        let room : I.Allows (count cs) = subst I.Allows (sym (count-width cs)) fits in
        let n : length (I.reader.children to1) ≡ count cs = I.length-init (count cs) to0 room in
        let same : length ws ≡ length (I.reader.children to1) =
          length-copy_slots cs (I.reader.children to1) n in
        (
          I.get-with ws to1 same ∙ I.get-init (count cs) to0 room ∙ I.get-set v t,
          subst (λ l. AllStand I.reader l (views cs)) (sym (I.children-with ws to1 same))
              (slots_stand cs (I.reader.children to1) n all),
        )

    pub length-copy_slots :
        (cs : Slots) (ts : List T) → length ts ≡ count cs → length (copy_slots I cs ts) ≡ length ts
    length-copy_slots nil ts h = refl
    length-copy_slots (cons c cs) [] h = refl
    length-copy_slots (cons c cs) (t ∷ ts) h = ap suc (length-copy_slots cs ts (omega arith))

    slots_stand :
        (cs : Slots) (ts : List T)
        → length ts ≡ count cs
        → AllWidths I.Allows (views cs)
        → AllStand I.reader (copy_slots I cs ts) (views cs)
    slots_stand nil [] h all = tt
    slots_stand nil (t ∷ ts) h all = absurd (omega arith)
    slots_stand (cons c cs) [] h all = absurd (omega arith)
    slots_stand (cons c cs) (t ∷ ts) h (fits, all) =
        (copy_stands c t fits, slots_stand cs ts (omega arith) all)

  -- `copyTree` makes any node into the source's tree, whatever the node and its storage held, where
  -- `InitChildren` can make as many children as each of the source's nodes has.
  pub copy_tree-StandsFor :
      (src : TreeNodeImpl) (t : T)
      → Widths I.Allows (view src)
      → StandsFor I.reader (copy_tree I src t) (view src)
  copy_tree-StandsFor src t fits = copy_stands src t fits
