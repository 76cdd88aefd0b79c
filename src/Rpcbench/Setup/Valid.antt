-- ===== src/Rpcbench/Setup/Valid.antt =====
-- A new client is valid: its trees have few nodes.
use gorpcbench.Prelude.{
  ℕ, zero, suc, ◌*◌, ◌-◌, ◌/◌, ◌≤◌, ◌<◌, ◌≡◌, refl, arith, Option, some, [], ◌∷◌,
}
use native.Mathlib.Nat.{mul-le-mul_right}
use gorpcbench.Go.Int64.{IsCount}
use gorpcbench.Rpcbench.Values.{Tree, size, size_all}
use gorpcbench.Rpcbench.Tree.{
  TreeNodeImpl, node, zero_node, Slots, nil, cons, init_children, make_nodes,
}
use gorpcbench.Rpcbench.Tree.View.{view, views}
use gorpcbench.Rpcbench.Client.{Client}
use gorpcbench.Rpcbench.Rng.{Rng}
use gorpcbench.Rpcbench.Harness.{random_children, make_random_tree, make_dense_tree_node}
use gorpcbench.Rpcbench.Harness.Random.{draw-some}
use gorpcbench.Rpcbench.Harness.Layouts.{dense_size, init_fresh, size-make_dense_tree_node}
use gorpcbench.Rpcbench.Calls.{BenchClient}
use gorpcbench.Rpcbench.Calls.Runs.{Fits, IsValid}
use gorpcbench.Rpcbench.Setup.{deepen, test_trees, new_client}

module _ (g : Rng) where
  -- A run of `makeRandomTree` on a new node, with the nodes of its result bounded: a node gets fewer
  -- children than its branching.
  Grown : (k : ℕ) → Option (TreeNodeImpl × g.Seed) → Type 0
  Grown k o = (r : TreeNodeImpl × g.Seed) × (o ≡ some r) × (size (view r.0) ≤ k)

  module _ (most k : ℕ) (grow : ℕ → TreeNodeImpl → g.Seed → Option (TreeNodeImpl × g.Seed))
      (grows : (b : ℕ) (s : g.Seed) → b ≤ suc most → Grown k (grow b zero_node s)) where
    children_grown :
        (b n : ℕ) (s : g.Seed)
        → 2 ≤ b
        → b ≤ suc most
        → (r : Slots × g.Seed) × (random_children g grow b (make_nodes n) s ≡ some r)
          × (size_all (views r.0) ≤ n * k)
    unfolding random_children Grown view size
    children_grown b zero s h m = ((nil, s), refl, omega arith)
    children_grown b (suc n) s h m =
        let (j, s1) = g.int_n (b / 2) s in
        let ((t, s2), e, small) = grows (b - j) s1 (omega arith) in
        let ((ts, s3), f, smalls) = children_grown b n s2 h m in
        (
          (cons t ts, s3),
          rw (draw-some g (b / 2) s (omega arith), e, f),
          omega (arith, small, smalls),
        )

  make_random_tree_small :
      (most level b : ℕ) (s : g.Seed)
      → b ≤ suc most
      → Grown (dense_size most level) (make_random_tree g level b zero_node s)
  unfolding make_random_tree dense_size Grown view size random_children
  make_random_tree_small most zero b s h = ((zero_node, s), refl, omega arith)
  make_random_tree_small most (suc level) zero s h = ((zero_node, s), refl, omega arith)
  make_random_tree_small most (suc level) (suc zero) s h =
      let (n, s1) = g.int_n 1 s in
      let none_at_all : n ≡ 0 = omega (arith, g.int_n_range 1 s (omega arith)) in
      (
        (zero_node, s1),
        rw (draw-some g 1 s (omega arith), init_fresh n, none_at_all) refl,
        omega arith,
      )
  make_random_tree_small most (suc level) (suc (suc b)) s h =
      let (n, s1) = g.int_n (suc (suc b)) s in
      let fewer : n < suc (suc b) = g.int_n_range (suc (suc b)) s (omega arith) in
      let ((ts, s2), e, small) =
        children_grown most (dense_size most level) (make_random_tree g level)
          (make_random_tree_small most level) (suc (suc b)) n s1 (omega arith) h in
      (
        (node 0 ts nil, s2),
        rw (draw-some g (suc (suc b)) s (omega arith), init_fresh n, e) refl,
        omega (
          arith,
          small,
          mul-le-mul_right {m = n} {n = most} (dense_size most level) (omega arith),
        ),
      )

-- No test tree has more nodes than this.
abbrev pub most_nodes : ℕ
most_nodes = 87381

small_IsCount : (t : TreeNodeImpl) → size (view t) ≤ most_nodes → IsCount (size (view t))
small_IsCount t h = omega (arith, h)

one_small : size (view zero_node) ≤ most_nodes
one_small = unfold view size in omega arith

deep_small : size (view (deepen 64 zero_node)) ≤ most_nodes
deep_small = unfold deepen init_children view size in omega arith

broad_small : size (view (init_children 64 zero_node)) ≤ most_nodes
broad_small = unfold init_children view size in omega arith

dense_small : size (view (make_dense_tree_node 5 6 zero_node)) ≤ most_nodes
dense_small = unfold dense_size in omega (arith, size-make_dense_tree_node 5 6)

random_small : (t : TreeNodeImpl) → size (view t) ≤ dense_size 4 8 → size (view t) ≤ most_nodes
random_small t h = unfold dense_size in omega (arith, h)

-- A client that `newClientHarness` makes over a connection that is ready is valid: making its trees
-- does not panic, whatever is drawn, and each of the six has fewer than 2 ^ 63 nodes. This is for a
-- system that takes every tree of up to 87381 nodes.
pub new_client-IsValid :
    (c : Client) (g : Rng) (Ready : c.State → Type 0) (conn : c.State) (reader rng : g.Seed)
    → ((v : Tree) → size v ≤ most_nodes → c.Allows v)
    → Ready conn
    → (b : BenchClient c g) × (new_client g c conn reader rng ≡ some b) × IsValid c g Ready b
unfolding new_client test_trees Grown
new_client-IsValid c g Ready conn reader rng allows ready =
    let ((t4, s1), e4, small4) = make_random_tree_small g 4 8 5 rng (omega arith) in
    let ((t5, s2), e5, small5) = make_random_tree_small g 4 8 5 s1 (omega arith) in
    let fits : (t : TreeNodeImpl) → size (view t) ≤ most_nodes → Fits c.Allows t =
      λ t h. (small_IsCount t h, allows (view t) h) in
    (
      record {
        state = conn;
        rng = s2;
        reader = reader;
        trees =
            zero_node
            ∷ deepen 64 zero_node
            ∷ init_children 64 zero_node
            ∷ make_dense_tree_node 5 6 zero_node
            ∷ t4
            ∷ t5
            ∷ [];
        chosen = 0;
      },
      rw (e4, e5) refl,
      record {
        ready = ready;
        some_tree = omega arith;
        fits = (
          fits _ one_small,
          (
            fits _ deep_small,
            (
              fits _ broad_small,
              (
                fits _ dense_small,
                (fits t4 (random_small t4 small4), (fits t5 (random_small t5 small5), tt)),
              ),
            ),
          ),
        );
      },
    )
