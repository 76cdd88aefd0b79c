-- ===== src/Rpcbench/Tree/Nodes.antt =====
-- `TreeNodeImpl` implements the interface `TreeNode`.
use gorpcbench.Prelude.{ℕ, suc, ◌≡◌, refl, ap, ◌∙◌, List, [], ◌∷◌, length}
use gorpcbench.Rpcbench.Values.{Tree, tree, more}
use gorpcbench.Rpcbench.Tree.{TreeNodeImpl, node, Slots, nil, cons, count}
use gorpcbench.Rpcbench.Tree.{get_value, set_value, init_children, children_count}
use gorpcbench.Rpcbench.Tree.View.{view, views, init_children_lem}
use gorpcbench.Rpcbench.TreeNode.{TreeReader, TreeNode, StandsFor}
use gorpcbench.Rpcbench.TreeNode.Views.{list_view, view-eq_of_StandsFor, StandsFor-eq}

abbrev to_list : Slots → List TreeNodeImpl
to_list nil = []
to_list (cons t ts) = t ∷ to_list ts

abbrev of_list : List TreeNodeImpl → Slots
of_list [] = nil
of_list (t ∷ ts) = cons t (of_list ts)

abbrev pub children : TreeNodeImpl → List TreeNodeImpl
children (node v cs sp) = to_list cs

abbrev pub with_children : List TreeNodeImpl → TreeNodeImpl → TreeNodeImpl
with_children ts (node v cs sp) = node v (of_list ts) sp

view_list : (cs : Slots) → views cs ≡ list_view view (to_list cs)
unfolding view
view_list nil = refl
view_list (cons t ts) = ap (more (view t)) (view_list ts)

pub view_node : (t : TreeNodeImpl) → view t ≡ tree (get_value t) (list_view view (children t))
unfolding view get_value
view_node (node v cs sp) = ap (tree v) (view_list cs)

to_list-of_list : (ts : List TreeNodeImpl) → to_list (of_list ts) ≡ ts
to_list-of_list [] = refl
to_list-of_list (t ∷ ts) = ap (λ l. t ∷ l) (to_list-of_list ts)

length-to_list : (cs : Slots) → length (to_list cs) ≡ count cs
length-to_list nil = refl
length-to_list (cons t ts) = ap suc (length-to_list ts)

pub length-children : (t : TreeNodeImpl) → length (children t) ≡ children_count t
unfolding children_count
length-children (node v cs sp) = length-to_list cs

pub get-set : (v : ℕ) (t : TreeNodeImpl) → get_value (set_value v t) ≡ v
unfolding get_value set_value
get-set v (node w cs sp) = refl

pub get-with :
    (ts : List TreeNodeImpl) (t : TreeNodeImpl) → get_value (with_children ts t) ≡ get_value t
unfolding get_value
get-with ts (node w cs sp) = refl

pub children-with : (ts : List TreeNodeImpl) (t : TreeNodeImpl) → children (with_children ts t) ≡ ts
children-with ts (node w cs sp) = to_list-of_list ts

abbrev pub impl_reader : TreeReader TreeNodeImpl
impl_reader = record { get_value = get_value; children = children }

-- The methods of `TreeNodeImpl` keep the promises of the interface.
abbrev pub tree_node_impl : TreeNode TreeNodeImpl
tree_node_impl = record {
  reader = impl_reader;
  set_value = set_value;
  init_children = init_children;
  with_children = with_children;
  Allows = λ n. Unit;
  get-set = get-set;
  get-init = λ n t h. (init_children_lem n t).1;
  length-init = λ n t h. length-children (init_children n t) ∙ (init_children_lem n t).0;
  get-with = λ ts t h. get-with ts t;
  children-with = λ ts t h. children-with ts t;
}

-- The tree of `view` is the one that a node stands for.
pub view-eq : (t : TreeNodeImpl) (u : Tree) → StandsFor impl_reader t u → view t ≡ u
view-eq = view-eq_of_StandsFor impl_reader view view_node

pub StandsFor-view : (t : TreeNodeImpl) (u : Tree) → view t ≡ u → StandsFor impl_reader t u
StandsFor-view = StandsFor-eq impl_reader view view_node
