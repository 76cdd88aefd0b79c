-- ===== src/Rpcbench/Harness/Layouts.antt =====
-- The shapes of the harness's fixed trees.
use gorpcbench.Prelude.{ℕ, zero, suc, ◌+◌, ◌*◌, ◌≡◌, refl, arith}
use gorpcbench.Rpcbench.Values.{SameShape, SameShapes, size, size_all}
use gorpcbench.Rpcbench.Tree.{
  TreeNodeImpl, node, zero_node, Slots, nil, cons, init_children, make_nodes,
}
use gorpcbench.Rpcbench.Tree.View.{view, views}
use gorpcbench.Rpcbench.Harness.{copy_layout, copy_layouts, map_slots, make_dense_tree_node}

mutual
  unfolding copy_layout view

  copy_layout_run : (t u : TreeNodeImpl) → SameShape (view t) (view (copy_layout t u))
  copy_layout_run (node v cs sp) (node w ds sq) = copy_layouts_run cs

  copy_layouts_run : (cs : Slots) → SameShapes (views cs) (views (copy_layouts cs))
  copy_layouts_run nil = tt
  copy_layouts_run (cons t ts) = (copy_layout_run t zero_node, copy_layouts_run ts)

-- `copyLayout` gives the target the source's shape.
pub copy_layout-SameShape : (t u : TreeNodeImpl) → SameShape (view t) (view (copy_layout t u))
copy_layout-SameShape t u = copy_layout_run t u

-- The number of nodes of a tree with `density` children on each of `level` levels.
unfoldable pub dense_size : ℕ → ℕ → ℕ
dense_size density zero = 1
dense_size density (suc level) = 1 + density * dense_size density level

size_copies :
    (f : TreeNodeImpl → TreeNodeImpl) (k n : ℕ)
    → size (view (f zero_node)) ≡ k
    → size_all (views (map_slots f (make_nodes n))) ≡ n * k
unfolding view size
size_copies f k zero h = omega arith
size_copies f k (suc n) h = omega (arith, h, size_copies f k n h)

pub init_fresh : (n : ℕ) → init_children n zero_node ≡ node 0 (make_nodes n) nil
unfolding init_children
init_fresh zero = refl
init_fresh (suc n) = ground arith

-- `makeDenseTreeNode` on a new node makes a tree with as many nodes as a full tree of the density
-- and the depth has.
pub size-make_dense_tree_node :
    (density level : ℕ)
    → size (view (make_dense_tree_node density level zero_node)) ≡ dense_size density level
unfolding make_dense_tree_node dense_size view size
size-make_dense_tree_node density zero = refl
size-make_dense_tree_node density (suc level) = rw (init_fresh density) (
    omega (
      arith,
      size_copies (make_dense_tree_node density level) (dense_size density level) density
          (size-make_dense_tree_node density level),
    ))
