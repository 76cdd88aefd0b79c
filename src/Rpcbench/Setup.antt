-- ===== src/Rpcbench/Setup.antt =====
-- rpcbench/bench_harness.go, the loop of `newClientHarness`: the state that one client starts with.
pub mod Valid
use gorpcbench.Prelude.{ℕ, zero, suc, Option, none, some, List, [], ◌∷◌}
use gorpcbench.Rpcbench.Tree.{TreeNodeImpl, zero_node, init_children}
use gorpcbench.Rpcbench.Client.{Client}
use gorpcbench.Rpcbench.Rng.{Rng}
use gorpcbench.Rpcbench.Harness.{map_children, make_dense_tree_node, make_random_tree, ◌>>=◌}
use gorpcbench.Rpcbench.Calls.{BenchClient}

-- `node.InitChildren(1); node = node.Child(0)`, as often as it says.
unfoldable pub deepen : ℕ → TreeNodeImpl → TreeNodeImpl
deepen zero t = t
deepen (suc n) t = map_children (deepen n) (init_children 1 t)

module _ (g : Rng) where
  -- The six test trees. A random tree that panics makes the whole panic.
  unfoldable pub test_trees : g.Seed → Option (List TreeNodeImpl × g.Seed)
  test_trees s = do
    (t4, s1) ← make_random_tree g 8 5 zero_node s
    (t5, s2) ← make_random_tree g 8 5 zero_node s1
    some (
      zero_node
          ∷ deepen 64 zero_node
          ∷ init_children 64 zero_node
          ∷ make_dense_tree_node 5 6 zero_node
          ∷ t4
          ∷ t5
          ∷ [],
      s2,
    )

  -- `reader` is the generator that is seeded by a number drawn first, and `rng` what the other
  -- generator is behind that number.
  unfoldable pub new_client :
      (c : Client) → c.State → (reader rng : g.Seed) → Option (BenchClient c g)
  new_client c conn reader rng = do
    (trees, s) ← test_trees rng
    some (record { state = conn; rng = s; reader = reader; trees = trees; chosen = 0 })
