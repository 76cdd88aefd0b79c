-- ===== src/Rpcbench/TreeNode/Views.antt =====
-- Nodes with a function to the trees that they stand for.
use mathlib.Core.Path.{ap₂}
use gorpcbench.Prelude.{◌≡◌, refl, ◌∙◌, List, [], ◌∷◌}
use gorpcbench.Rpcbench.Values.{Tree, tree, Trees, empty, more}
use gorpcbench.Rpcbench.TreeNode.{TreeReader, StandsFor, AllStand}

abbrev pub list_view {ℓ} : {T : Type ℓ} → (T → Tree) → List T → Trees
list_view f [] = empty
list_view f (t ∷ ts) = more (f t) (list_view f ts)

module _ {T : Type 0} (R : TreeReader T) (view : T → Tree)
    (view_node : (t : T) → view t ≡ tree (R.get_value t) (list_view view (R.children t))) where
  mutual
    view_is : (t : T) (u : Tree) → StandsFor R t u → view t ≡ u
    view_is t (tree v us) (h, hs) = view_node t ∙ ap₂ tree h (list_view_is (R.children t) us hs)

    list_view_is : (ts : List T) (us : Trees) → AllStand R ts us → list_view view ts ≡ us
    list_view_is [] empty h = refl
    list_view_is [] (more u us) h = absurd h
    list_view_is (t ∷ ts) empty h = absurd h
    list_view_is (t ∷ ts) (more u us) (h, hs) = ap₂ more (view_is t u h) (list_view_is ts us hs)

  mutual
    stands : (t : T) (u : Tree) → view t ≡ u → StandsFor R t u
    stands t (tree v us) h = (cc (view_node t), all_stand (R.children t) us (cc (view_node t)))

    all_stand : (ts : List T) (us : Trees) → list_view view ts ≡ us → AllStand R ts us
    all_stand [] empty h = tt
    all_stand [] (more u us) h = cc
    all_stand (t ∷ ts) empty h = cc
    all_stand (t ∷ ts) (more u us) h = (stands t u (cc), all_stand ts us (cc))

  pub view-eq_of_StandsFor : (t : T) (u : Tree) → StandsFor R t u → view t ≡ u
  view-eq_of_StandsFor t u h = view_is t u h

  pub StandsFor-eq : (t : T) (u : Tree) → view t ≡ u → StandsFor R t u
  StandsFor-eq t u h = stands t u h
