-- ===== src/Grpc/Tree/Convert.antt =====
-- internal/rpc/grpc/grpc_utils.go: trees of the benchmark to gRPC messages and back.
use mathlib.Core.Path.{ap₂}
use gorpcbench.Prelude.{ℕ, ◌≡◌, refl, ap, ◌==◌, if◌then◌else◌, suc, ==-self}
use gorpcbench.Go.Errors.{Result, ok, err, stuck, text}
use gorpcbench.Rpcbench.Values.{tree, more, SameShape, SameShapes}
use gorpcbench.Rpcbench.Tree.{TreeNodeImpl, Slots}
use gorpcbench.Rpcbench.Tree
use gorpcbench.Rpcbench.Tree.View
use gorpcbench.Grpc.Tree.{TreeNode, node, Children, nil, cons, end, count}
use gorpcbench.Grpc.Tree.Nodes.{view, views}

unfoldable mutual
  pub tree_to_grpc : TreeNodeImpl → TreeNode
  tree_to_grpc (TreeNodeImpl.node v cs sp) = node v (slots_to_grpc cs) end

  pub slots_to_grpc : Slots → Children
  slots_to_grpc Slots.nil = nil
  slots_to_grpc (Slots.cons t ts) = cons (tree_to_grpc t) (slots_to_grpc ts)

abbrev pub wrong_count : Result (Unit {0})
wrong_count = err (text "wrong number of children")

abbrev pub and_then :
    Result (Unit {0}) × TreeNodeImpl → Slots → Result (Unit {0}) × Slots → Result (Unit {0}) × Slots
and_then (ok x, t) old (r, ts) = (r, Slots.cons t ts)
and_then (err e, t) old (r, ts) = (err e, Slots.cons t old)
and_then (stuck, t) old (r, ts) = (stuck, Slots.cons t old)

abbrev pub put_slots : ℕ → Slots → Result (Unit {0}) × Slots → Result (Unit {0}) × TreeNodeImpl
put_slots v sp (r, cs) = (r, TreeNodeImpl.node v cs sp)

-- The target is changed in place up to the first node whose number of children differs.
unfoldable mutual
  pub grpc_to_tree : TreeNode → TreeNodeImpl → Result (Unit {0}) × TreeNodeImpl
  grpc_to_tree (node v gs sp) (TreeNodeImpl.node w cs sq) =
      if count gs == Tree.count cs
      then put_slots v sq (grpc_to_slots gs cs)
      else (wrong_count, TreeNodeImpl.node w cs sq)

  pub grpc_to_slots : Children → Slots → Result (Unit {0}) × Slots
  grpc_to_slots nil cs = (ok tt, cs)
  grpc_to_slots (cons g gs) Slots.nil = (ok tt, Slots.nil)
  grpc_to_slots (cons g gs) (Slots.cons t ts) = and_then (grpc_to_tree g t) ts (grpc_to_slots gs ts)

mutual
  unfolding tree_to_grpc view View.view

  to_grpc_view : (t : TreeNodeImpl) → view (tree_to_grpc t) ≡ View.view t
  to_grpc_view (TreeNodeImpl.node v cs sp) = ap (tree v) (to_grpc_views cs)

  to_grpc_views : (cs : Slots) → views (slots_to_grpc cs) ≡ View.views cs
  to_grpc_views Slots.nil = refl
  to_grpc_views (Slots.cons t ts) = ap₂ more (to_grpc_view t) (to_grpc_views ts)

-- `treeToGrpc` keeps the tree.
pub view-tree_to_grpc : (t : TreeNodeImpl) → view (tree_to_grpc t) ≡ View.view t
view-tree_to_grpc t = to_grpc_view t

mutual
  unfolding grpc_to_tree view View.view

  to_tree_view :
      (g : TreeNode) (t : TreeNodeImpl)
      → SameShape (view g) (View.view t)
      → (u : TreeNodeImpl) × (grpc_to_tree g t ≡ (ok tt, u)) × (View.view u ≡ view g)
  to_tree_view (node v gs sp) (TreeNodeImpl.node w cs sq) h =
      let (us, e, p) = to_slots_view gs cs h in
      (
        TreeNodeImpl.node v us sq,
        rw (same_count gs cs h, ==-self (Tree.count cs), e),
        ap (tree v) p,
      )

  to_slots_view :
      (gs : Children) (cs : Slots)
      → SameShapes (views gs) (View.views cs)
      → (us : Slots) × (grpc_to_slots gs cs ≡ (ok tt, us)) × (View.views us ≡ views gs)
  to_slots_view nil Slots.nil h = (Slots.nil, refl, refl)
  to_slots_view nil (Slots.cons t ts) h = absurd h
  to_slots_view (cons g gs) Slots.nil h = absurd h
  to_slots_view (cons g gs) (Slots.cons t ts) (h, hs) =
      let (u, e, p) = to_tree_view g t h in
      let (us, f, q) = to_slots_view gs ts hs in (Slots.cons u us, rw (e, f), ap₂ more p q)

  same_count :
      (gs : Children) (cs : Slots)
      → SameShapes (views gs) (View.views cs)
      → count gs ≡ Tree.count cs
  same_count nil Slots.nil h = refl
  same_count nil (Slots.cons t ts) h = absurd h
  same_count (cons g gs) Slots.nil h = absurd h
  same_count (cons g gs) (Slots.cons t ts) (h, hs) = ap suc (same_count gs ts hs)

-- `grpcToTree` puts a message into any tree of its shape, and reports no error.
pub grpc_to_tree_lem :
    (g : TreeNode) (t : TreeNodeImpl)
    → SameShape (view g) (View.view t)
    → (u : TreeNodeImpl) × (grpc_to_tree g t ≡ (ok tt, u)) × (View.view u ≡ view g)
grpc_to_tree_lem g t h = to_tree_view g t h
