-- ===== src/Tests/Trees.antt =====
-- The trees and the harness at work.
use gorpcbench.Prelude.{◌≡◌, refl, ◌↔◌, true, arith}
use gorpcbench.Go.Int64.{add64, mul64}
use gorpcbench.Rpcbench.TreeNode.Print.{print_tree_node, print_tree_node_iff}
use gorpcbench.Rpcbench.Values.{Widths-any, scale, size}
use gorpcbench.Rpcbench.Tree.{node, nil, cons, init_children, get_value, total_nodes, zero_node}
use gorpcbench.Rpcbench.Tree.View.{view}
use gorpcbench.Rpcbench.Tree.Nodes.{tree_node_impl, impl_reader, StandsFor-view}
use gorpcbench.Rpcbench.TreeNode.{StandsFor, copy_tree, tree_matches_for_mult}
use gorpcbench.Rpcbench.TreeNode.Copy.{copy_tree-StandsFor}
use gorpcbench.Rpcbench.TreeNode.Matches.{tree_matches_for_mult_iff}
use gorpcbench.Rpcbench.Harness.Layouts.{dense_size}
use gorpcbench.Tests.{small, doubled}

total_nodes-small : total_nodes small ≡ 3
unfolding total_nodes add64
total_nodes-small = refl

-- The third child is the old node of the storage.
init_children-small :
    init_children 3 small
    ≡ node 2 (cons (node 3 nil nil) (cons (node 5 nil nil) (cons zero_node nil))) nil
unfolding init_children
init_children-small = refl

copy_tree-StandsFor_example :
    StandsFor impl_reader (copy_tree tree_node_impl small doubled) (view small)
copy_tree-StandsFor_example =
    copy_tree-StandsFor tree_node_impl small doubled (Widths-any (view small))

tree_matches_for_mult_iff_example :
    (tree_matches_for_mult impl_reader doubled small 2 ≡ true)
    ↔ StandsFor impl_reader doubled (scale 2 (view small))
tree_matches_for_mult_iff_example = tree_matches_for_mult_iff impl_reader doubled small 2

doubled_matches : tree_matches_for_mult impl_reader doubled small 2 ≡ true
unfolding tree_matches_for_mult get_value mul64
doubled_matches = refl

dense_size_two : dense_size 2 3 ≡ 15
unfolding dense_size
dense_size_two = refl

print_tree_node_iff_example :
    (print_tree_node impl_reader 3 doubled 1 0 ≡ print_tree_node impl_reader 3 small 2 0)
    ↔ (tree_matches_for_mult impl_reader doubled small 2 ≡ true)
print_tree_node_iff_example =
    print_tree_node_iff impl_reader 3 doubled (view doubled) small 2 0
      (StandsFor-view doubled (view doubled) refl)
      (unfold view in (omega arith, ((omega arith, tt), ((omega arith, tt), tt))))
      (unfold view size in omega arith) (unfold view size in omega arith)
