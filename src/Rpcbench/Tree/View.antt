-- ===== src/Rpcbench/Tree/View.antt =====
-- The tree that a `TreeNodeImpl` stands for, and what its methods do to it.
use gorpcbench.Prelude.{
  ℕ, zero, suc, ◌+◌, ◌%◌, ◌^◌, ◌≤◌, ◌≡◌, refl, ap, ◌∙◌, arith, leb, Bool-cases, inl, inr,
}
use gorpcbench.Go.Int64.{IsInt64, add64, mul64, add64-IsInt64}
use gorpcbench.Rpcbench.Values.{Tree, tree, Trees, empty, more, size, size_all, scale, scale_all}
use gorpcbench.Rpcbench.Tree.{
  TreeNodeImpl, node, Slots, nil, cons, count, append, first, make_nodes, get_value, init_children,
  children_count, reset, total_nodes, total_from, mult, mult_slots,
}

unfoldable mutual
  pub view : TreeNodeImpl → Tree
  view (node v cs sp) = tree v (views cs)

  pub views : Slots → Trees
  views nil = empty
  views (cons t ts) = more (view t) (views ts)

mutual
  unfolding view mult scale

  mult_view : (m : ℕ) (t : TreeNodeImpl) → view (mult m t) ≡ scale m (view t)
  mult_view m (node v cs sp) = ap (tree (mul64 v m)) (mult_slots_view m cs)

  mult_slots_view : (m : ℕ) (ts : Slots) → views (mult_slots m ts) ≡ scale_all m (views ts)
  mult_slots_view m nil = refl
  mult_slots_view m (cons t ts) = rw (mult_view m t, mult_slots_view m ts)

-- `Mult` multiplies every value of the tree and changes nothing else of it.
pub view-mult : (m : ℕ) (t : TreeNodeImpl) → view (mult m t) ≡ scale m (view t)
view-mult m t = mult_view m t

mutual
  unfolding view total_nodes size add64

  total_nodes-view : (t : TreeNodeImpl) → total_nodes t ≡ size (view t) % 2 ^ 64
  total_nodes-view (node v cs sp) =
      total_from-view 1 cs (omega arith) ∙ ap (λ k. k % 2 ^ 64) (omega arith)

  total_from-view :
      (sum : ℕ) (ts : Slots)
      → IsInt64 sum
      → total_from sum ts ≡ (sum + size_all (views ts)) % 2 ^ 64
  total_from-view sum nil h = omega arith
  total_from-view sum (cons t ts) h = omega (
    arith,
    total_nodes-view t,
    total_from-view (add64 sum (total_nodes t)) ts (add64-IsInt64 sum (total_nodes t)),
  )

-- `TotalNodes` counts the nodes of the tree, as far as an `int` reaches.
pub total_nodes-size : (t : TreeNodeImpl) → total_nodes t ≡ size (view t) % 2 ^ 64
total_nodes-size t = total_nodes-view t

count-first : (n : ℕ) (ts : Slots) → n ≤ count ts → count (first n ts) ≡ n
count-first zero ts h = refl
count-first (suc n) nil h = elim h [ ]
count-first (suc n) (cons t ts) h = ap suc (count-first n ts (omega arith))

count-append : (ts us : Slots) → count (append ts us) ≡ count ts + count us
count-append nil us = omega arith
count-append (cons t ts) us = omega (arith, count-append ts us)

count-make_nodes : (n : ℕ) → count (make_nodes n) ≡ n
count-make_nodes zero = refl
count-make_nodes (suc n) = ap suc (count-make_nodes n)

-- After `InitChildren(n)` a node has `n` children and its old value, whatever storage it had.
pub init_children_lem :
    (n : ℕ) (t : TreeNodeImpl)
    → (children_count (init_children n t) ≡ n) × (get_value (init_children n t) ≡ get_value t)
unfolding init_children children_count get_value
init_children_lem n (node v cs sp) = elim (Bool-cases (leb n (count cs + count sp))) [
  | inl fits ↦ rw fits (count-first n (append cs sp) (ground (arith, count-append cs sp)), refl)
  | inr grows ↦ rw grows (count-make_nodes n, refl)
]

-- `Reset` leaves a node with no children.
pub view-reset : (t : TreeNodeImpl) → view (reset t) ≡ tree (get_value t) empty
unfolding view reset get_value
view-reset (node v cs sp) = refl
