-- ===== src/Rpcbench/Harness.antt =====
-- The harness's trees, rpcbench/treenode.go from `copyLayout` on: how the test trees are laid out
-- and filled. The harness calls these functions on `TreeNodeImpl` values only.
pub mod Random
pub mod Layouts
use gorpcbench.Prelude.{ℕ, zero, suc, ◌-◌, ◌/◌, Option, none, some}
use gorpcbench.Rpcbench.Tree.{TreeNodeImpl, node, zero_node, Slots, nil, cons, init_children}
use gorpcbench.Rpcbench.Rng.{Rng}

abbrev pub put_children : Slots → Slots → TreeNodeImpl → TreeNodeImpl
put_children cs sp (node v old_cs old_sp) = node v cs sp

-- The target gets a new slice of children, and keeps its value.
unfoldable mutual
  pub copy_layout : TreeNodeImpl → TreeNodeImpl → TreeNodeImpl
  copy_layout (node v cs sp) tgt = put_children (copy_layouts cs) nil tgt

  pub copy_layouts : Slots → Slots
  copy_layouts nil = nil
  copy_layouts (cons t ts) = cons (copy_layout t zero_node) (copy_layouts ts)

abbrev pub map_slots : (TreeNodeImpl → TreeNodeImpl) → Slots → Slots
map_slots f nil = nil
map_slots f (cons t ts) = cons (f t) (map_slots f ts)

abbrev pub map_children : (TreeNodeImpl → TreeNodeImpl) → TreeNodeImpl → TreeNodeImpl
map_children f (node v cs sp) = node v (map_slots f cs) sp

unfoldable pub make_dense_tree_node : ℕ → ℕ → TreeNodeImpl → TreeNodeImpl
make_dense_tree_node density zero t = t
make_dense_tree_node density (suc level) t =
    map_children (make_dense_tree_node density level) (init_children density t)

infixl 5 ◌>>=◌
abbrev pub ◌>>=◌ {ℓ κ} : {A : Type ℓ} {B : Type κ} → Option A → (A → Option B) → Option B
none >>= f = none
some a >>= f = f a

module _ (g : Rng) where
  unfoldable mutual
    pub populate_with_rand : TreeNodeImpl → g.Seed → TreeNodeImpl × g.Seed
    populate_with_rand (node w cs sp) s =
        let (v, s1) = g.int64 s in let (cs', s2) = populate_slots cs s1 in (node v cs' sp, s2)

    pub populate_slots : Slots → g.Seed → Slots × g.Seed
    populate_slots nil s = (nil, s)
    populate_slots (cons t ts) s =
        let (t', s1) = populate_with_rand t s in
        let (ts', s2) = populate_slots ts s1 in (cons t' ts', s2)

  -- `IntN(n)`, which panics (`none`) for an `n` that is not positive.
  unfoldable pub draw : ℕ → g.Seed → Option (ℕ × g.Seed)
  draw zero s = none
  draw (suc n) s = some (g.int_n (suc n) s)

  -- The loop over the children: `grow` makes the subtree of one child.
  unfoldable pub random_children :
      (ℕ → TreeNodeImpl → g.Seed → Option (TreeNodeImpl × g.Seed))
      → ℕ
      → Slots
      → g.Seed
      → Option (Slots × g.Seed)
  random_children grow branching nil s = some (nil, s)
  random_children grow branching (cons t ts) s = do
    (k, s1) ← draw (branching / 2) s
    (t', s2) ← grow (branching - k) t s1
    (ts', s3) ← random_children grow branching ts s2
    some (cons t' ts', s3)

  abbrev pub grow_children :
      (ℕ → TreeNodeImpl → g.Seed → Option (TreeNodeImpl × g.Seed))
      → ℕ
      → TreeNodeImpl
      → g.Seed
      → Option (TreeNodeImpl × g.Seed)
  grow_children grow branching (node v cs sp) s = do
    (cs', s') ← random_children grow branching cs s
    some (node v cs' sp, s')

  unfoldable pub make_random_tree : ℕ → ℕ → TreeNodeImpl → g.Seed → Option (TreeNodeImpl × g.Seed)
  make_random_tree zero branching t s = some (t, s)
  make_random_tree (suc level) zero t s = some (t, s)
  make_random_tree (suc level) (suc b) t s = do
    (c, s1) ← draw (suc b) s
    grow_children (make_random_tree level) (suc b) (init_children c t) s1
