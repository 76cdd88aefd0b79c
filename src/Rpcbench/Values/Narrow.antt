-- ===== src/Rpcbench/Values/Narrow.antt =====
-- No node of a tree has more children than the tree has nodes.
use gorpcbench.Prelude.{ℕ, ◌≤◌, ◌<◌, arith}
use gorpcbench.Rpcbench.Values.{
  Tree, tree, Trees, empty, more, size, size_all, width, Widths, AllWidths,
}

size-positive : (t : Tree) → 0 < size t
unfolding size
size-positive (tree v ts) = omega arith

width-size_all : (ts : Trees) → width ts ≤ size_all ts
unfolding size
width-size_all empty = omega arith
width-size_all (more t ts) = omega (arith, size-positive t, width-size_all ts)

mutual
  unfolding size

  narrow : (k : ℕ) (t : Tree) → size t ≤ k → Widths (λ n. n < k) t
  narrow k (tree v ts) h = (omega (arith, width-size_all ts, h), all_narrow k ts (omega (arith, h)))

  all_narrow : (k : ℕ) (ts : Trees) → size_all ts ≤ k → AllWidths (λ n. n < k) ts
  all_narrow k empty h = tt
  all_narrow k (more t ts) h = (narrow k t (omega (arith, h)), all_narrow k ts (omega (arith, h)))

pub Widths-size : (k : ℕ) (t : Tree) → size t ≤ k → Widths (λ n. n < k) t
Widths-size k t h = narrow k t h
