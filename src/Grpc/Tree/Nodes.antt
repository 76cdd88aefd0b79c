-- ===== src/Grpc/Tree/Nodes.antt =====
-- The gRPC node implements the interface `TreeNode` of the benchmark.
use mathlib.Core.Path.{ap₂}
use gorpcbench.Prelude.{
  ℕ, zero, suc, ◌+◌, ◌-◌, ◌≤◌, ◌≡◌, refl, ap, ◌∙◌, arith, List, [], ◌∷◌, length, leb, Bool-cases,
  inl, inr,
}
use gorpcbench.Rpcbench.Values.{Tree, tree, Trees, empty, more, scale, scale_all}
use gorpcbench.Go.Int64.{mul64}
use gorpcbench.Rpcbench.TreeNode.{TreeReader, StandsFor}
use gorpcbench.Rpcbench.TreeNode.Views.{list_view, view-eq_of_StandsFor, StandsFor-eq}
use gorpcbench.Rpcbench.TreeNode.{TreeNode as BenchNode}
use gorpcbench.Grpc.Tree.{
  TreeNode, node, Children, nil, cons, Spare, end, unset, old, count, count_spare, storage, filled,
  unset_slots, append_slots, init_children, set_value, get_value, children_count, mult_tree,
  mult_children,
}

unfoldable mutual
  pub view : TreeNode → Tree
  view (node v cs sp) = tree v (views cs)

  pub views : Children → Trees
  views nil = empty
  views (cons t ts) = more (view t) (views ts)

mutual
  unfolding view mult_tree scale

  mult_view : (m : ℕ) (t : TreeNode) → view (mult_tree m t) ≡ scale m (view t)
  mult_view m (node v cs sp) = ap (tree (mul64 v m)) (mult_children_view m cs)

  mult_children_view : (m : ℕ) (ts : Children) → views (mult_children m ts) ≡ scale_all m (views ts)
  mult_children_view m nil = refl
  mult_children_view m (cons t ts) = ap₂ more (mult_view m t) (mult_children_view m ts)

-- The gRPC server's `multTree` multiplies every value and keeps the shape.
pub view-mult_tree : (m : ℕ) (t : TreeNode) → view (mult_tree m t) ≡ scale m (view t)
view-mult_tree m t = mult_view m t

count-filled : (n : ℕ) (ps : Spare) → n ≤ count_spare ps → count (filled n ps) ≡ n
count-filled zero ps h = refl
count-filled (suc n) end h = absurd (omega arith)
count-filled (suc n) (unset ps) h = ap suc (count-filled n ps (omega arith))
count-filled (suc n) (old t ps) h = ap suc (count-filled n ps (omega arith))

count-storage :
    (cs : Children) (ps : Spare) → count_spare (storage cs ps) ≡ count cs + count_spare ps
count-storage nil ps = omega arith
count-storage (cons t ts) ps = omega (arith, count-storage ts ps)

count-unset_slots : (n : ℕ) → count_spare (unset_slots n) ≡ n
count-unset_slots zero = refl
count-unset_slots (suc n) = ap suc (count-unset_slots n)

count-append_slots :
    (ps qs : Spare) → count_spare (append_slots ps qs) ≡ count_spare ps + count_spare qs
count-append_slots end qs = omega arith
count-append_slots (unset ps) qs = omega (arith, count-append_slots ps qs)
count-append_slots (old t ps) qs = omega (arith, count-append_slots ps qs)

count-grown :
    (n k : ℕ) (cs : Children) (ps : Spare)
    → n
      ≤ count_spare
          (append_slots (storage cs ps) (unset_slots (n - (count cs + count_spare ps) + k)))
count-grown n k cs ps =
    let more : ℕ = n - (count cs + count_spare ps) + k in
    omega (
      arith,
      count-append_slots (storage cs ps) (unset_slots more),
      count-storage cs ps,
      count-unset_slots more,
    )

-- After `InitChildren(n)` the node has `n` children, none of them nil, and its old value, whatever
-- the storage held and however much of it is allocated.
pub init_children_lem :
    (extra : ℕ → ℕ) (n : ℕ) (t : TreeNode)
    → (children_count (init_children extra n t) ≡ n)
      × (get_value (init_children extra n t) ≡ get_value t)
unfolding init_children children_count get_value
init_children_lem extra n (node v cs sp) = elim (Bool-cases (leb n (count cs + count_spare sp))) [
  | inl fits ↦ rw fits (count-filled n (storage cs sp) (ground (arith, count-storage cs sp)), refl)
  | inr grows ↦ rw grows (
    count-filled n
        (append_slots (storage cs sp) (unset_slots (n - (count cs + count_spare sp) + extra n)))
        (count-grown n (extra n) cs sp),
    refl,
  )
]

abbrev pub to_list : Children → List TreeNode
to_list nil = []
to_list (cons t ts) = t ∷ to_list ts

abbrev pub of_list : List TreeNode → Children
of_list [] = nil
of_list (t ∷ ts) = cons t (of_list ts)

abbrev pub children : TreeNode → List TreeNode
children (node v cs sp) = to_list cs

abbrev pub with_children : List TreeNode → TreeNode → TreeNode
with_children ts (node v cs sp) = node v (of_list ts) sp

view_list : (cs : Children) → views cs ≡ list_view view (to_list cs)
unfolding view
view_list nil = refl
view_list (cons t ts) = ap (more (view t)) (view_list ts)

pub view_node : (t : TreeNode) → view t ≡ tree (get_value t) (list_view view (children t))
unfolding view get_value
view_node (node v cs sp) = ap (tree v) (view_list cs)

to_list-of_list : (ts : List TreeNode) → to_list (of_list ts) ≡ ts
to_list-of_list [] = refl
to_list-of_list (t ∷ ts) = ap (λ l. t ∷ l) (to_list-of_list ts)

length-to_list : (cs : Children) → length (to_list cs) ≡ count cs
length-to_list nil = refl
length-to_list (cons t ts) = ap suc (length-to_list ts)

pub length-children : (t : TreeNode) → length (children t) ≡ children_count t
unfolding children_count
length-children (node v cs sp) = length-to_list cs

pub get-set : (v : ℕ) (t : TreeNode) → get_value (set_value v t) ≡ v
unfolding get_value set_value
get-set v (node w cs sp) = refl

pub get-with : (ts : List TreeNode) (t : TreeNode) → get_value (with_children ts t) ≡ get_value t
unfolding get_value
get-with ts (node w cs sp) = refl

pub children-with : (ts : List TreeNode) (t : TreeNode) → children (with_children ts t) ≡ ts
children-with ts (node w cs sp) = to_list-of_list ts

abbrev pub grpc_reader : TreeReader TreeNode
grpc_reader = record { get_value = get_value; children = children }

abbrev pub grpc_node : (ℕ → ℕ) → BenchNode TreeNode
grpc_node extra = record {
  reader = grpc_reader;
  set_value = set_value;
  init_children = init_children extra;
  with_children = with_children;
  Allows = λ n. Unit;
  get-set = get-set;
  get-init = λ n t h. (init_children_lem extra n t).1;
  length-init =
      λ n t h. length-children (init_children extra n t) ∙ (init_children_lem extra n t).0;
  get-with = λ ts t h. get-with ts t;
  children-with = λ ts t h. children-with ts t;
}

-- The tree of `view` is the one that a node stands for.
pub view-eq : (t : TreeNode) (u : Tree) → StandsFor grpc_reader t u → view t ≡ u
view-eq = view-eq_of_StandsFor grpc_reader view view_node

pub StandsFor-view : (t : TreeNode) (u : Tree) → view t ≡ u → StandsFor grpc_reader t u
StandsFor-view = StandsFor-eq grpc_reader view view_node
