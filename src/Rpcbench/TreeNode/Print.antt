-- ===== src/Rpcbench/TreeNode/Print.antt =====
-- `PrintTreeNode` of rpcbench/treenode.go: the lines that it prints, and when two trees print alike.
use mathlib.Core.Path.{ap₂, subst}
use gorpcbench.Prelude.{
  ℕ, zero, suc, ◌+◌, ◌≤◌, ◌≡◌, refl, sym, ap, ◌∙◌, arith, List, [], ◌∷◌, ◌++◌, Option, none, some,
  true, ◌<◌, append_assoc, ◌↔◌,
}
use gorpcbench.Go.Int64.{IsInt64, mul64}
use gorpcbench.Rpcbench.Values.{
  Tree, tree, Trees, empty, more, size, size_all, scale, scale_all, size-SameShape, scale-SameShape,
  InRange, AllInRange,
}
use gorpcbench.Rpcbench.Tree.{TreeNodeImpl}
use gorpcbench.Rpcbench.Tree.View.{view}
use gorpcbench.Rpcbench.Tree.Nodes.{impl_reader, StandsFor-view}
use gorpcbench.Rpcbench.Harness.{◌>>=◌}
use gorpcbench.Rpcbench.TreeNode.{TreeReader, StandsFor, AllStand, tree_matches_for_mult}
use gorpcbench.Rpcbench.TreeNode.Matches.{tree_matches_for_mult_iff}

-- A line is the length of its prefix and the number in it.
abbrev pub Line : Type 0
Line = ℕ × ℕ

abbrev pub each {ℓ} : {T : Type ℓ} → (T → Option (List Line)) → List T → Option (List Line)
each print [] = some []
each print (t ∷ ts) = do first ← print t; rest ← each print ts; some (first ++ rest)

-- The `fuel` bounds how deep the tree is; `none` is a tree that is deeper.
unfoldable pub print_tree_node :
    {T : Type 0} → TreeReader T → ℕ → T → (mult prefix : ℕ) → Option (List Line)
print_tree_node R zero t m p = none
print_tree_node R (suc fuel) t m p = do
  rest ← each (λ u. print_tree_node R fuel u m (p + 4)) (R.children t)
  some ((p, mul64 (R.get_value t) m) ∷ rest)

-- The lines of a tree of values.
mutual
  lines : ℕ → ℕ → Tree → List Line
  lines m p (tree v us) = (p, mul64 v m) ∷ all_lines m (p + 4) us

  all_lines : ℕ → ℕ → Trees → List Line
  all_lines m p empty = []
  all_lines m p (more u us) = lines m p u ++ all_lines m p us

module _ {T : Type 0} (R : TreeReader T) where
  mutual
    unfolding print_tree_node lines size

    prints :
        (fuel : ℕ) (t : T) (v : Tree) (m p : ℕ)
        → size v ≤ fuel
        → StandsFor R t v
        → print_tree_node R fuel t m p ≡ some (lines m p v)
    prints zero t (tree v us) m p few h = absurd (omega (arith, few))
    prints (suc fuel) t (tree v us) m p few (e, hs) =
        rw (all_print fuel (R.children t) us m (p + 4) (omega (arith, few)) hs, e) refl

    all_print :
        (fuel : ℕ) (ts : List T) (us : Trees) (m p : ℕ)
        → size_all us ≤ fuel
        → AllStand R ts us
        → each (λ u. print_tree_node R fuel u m p) ts ≡ some (all_lines m p us)
    all_print fuel [] empty m p few h = refl
    all_print fuel [] (more u us) m p few h = absurd h
    all_print fuel (t ∷ ts) empty m p few h = absurd h
    all_print fuel (t ∷ ts) (more u us) m p few (h, hs) =
        rw
          (
            prints fuel t u m p (omega (arith, few)) h,
            all_print fuel ts us m p (omega (arith, few)) hs,
          )
          refl

mul64_once : (v m : ℕ) → mul64 (mul64 v m) 1 ≡ mul64 v m
unfolding mul64
mul64_once v m = omega arith

mutual
  unfolding lines scale

  lines-scale : (m p : ℕ) (v : Tree) → lines 1 p (scale m v) ≡ lines m p v
  lines-scale m p (tree v us) = rw (mul64_once v m, all_lines-scale m (p + 4) us) refl

  all_lines-scale : (m p : ℕ) (us : Trees) → all_lines 1 p (scale_all m us) ≡ all_lines m p us
  all_lines-scale m p empty = refl
  all_lines-scale m p (more u us) = rw (lines-scale m p u, all_lines-scale m p us) refl

-- Lines that do not begin inside a tree whose children are printed with the prefix `p`.
Below : ℕ → List Line → Type 0
Below p [] = Unit
Below p (l ∷ ls) = l.0 < p

lines-Below :
    (m p : ℕ) (us : Trees) (ls : List Line) → Below p ls → Below (p + 4) (all_lines m p us ++ ls)
unfolding Below lines
lines-Below m p empty [] h = tt
lines-Below m p empty (l ∷ ls) h = omega (arith, h)
lines-Below m p (more (tree v vs) us) ls h = omega arith

abbrev lines_of : Option (List Line) → List Line
lines_of none = []
lines_of (some ls) = ls

abbrev head_or : Line → List Line → Line
head_or l [] = l
head_or l (k ∷ ks) = k

abbrev rest_of : List Line → List Line
rest_of [] = []
rest_of (k ∷ ks) = ks

cons-injective :
    (k l : Line) (ks ls : List Line) → k ∷ ks ≡ l ∷ ls → (k.0 ≡ l.0) × (k.1 ≡ l.1) × (ks ≡ ls)
cons-injective k l ks ls e =
    (ap (λ xs. (head_or k xs).0) e, ap (λ xs. (head_or k xs).1) e, ap rest_of e)

not-Below : (l : Line) (ls : List Line) (xs : List Line) → xs ≡ l ∷ ls → Below l.0 xs → ⊥
unfolding Below
not-Below l ls xs e h =
    let impossible : l.0 < l.0 = subst (Below l.0) e h in omega (arith, impossible)

mul64_same : (v : ℕ) → IsInt64 v → mul64 v 1 ≡ v
unfolding mul64
mul64_same v h = omega (arith, h)

-- Lines say where each tree ends, and so which tree they are of.
mutual
  unfolding lines scale

  lines-injective :
      (m p : ℕ) (v w : Tree) (ks ls : List Line)
      → InRange v
      → Below (p + 4) ks
      → Below (p + 4) ls
      → lines 1 p v ++ ks ≡ lines m p w ++ ls
      → (v ≡ scale m w) × (ks ≡ ls)
  lines-injective m p (tree v us) (tree w ws) ks ls (hv, hs) below below' e =
      let (q, x, rest) = cons-injective _ _ _ _ e in
      let (subtrees, same) = all_lines-injective m (p + 4) us ws ks ls hs below below' rest in
      (ap₂ tree (sym (mul64_same v hv) ∙ x) subtrees, same)

  all_lines-injective :
      (m p : ℕ) (us ws : Trees) (ks ls : List Line)
      → AllInRange us
      → Below p ks
      → Below p ls
      → all_lines 1 p us ++ ks ≡ all_lines m p ws ++ ls
      → (us ≡ scale_all m ws) × (ks ≡ ls)
  all_lines-injective m p empty empty ks ls h below below' e = (refl, e)
  all_lines-injective m p empty (more (tree w xs) ws) ks ls h below below' e =
      absurd (not-Below (p, mul64 w m) _ ks e below)
  all_lines-injective m p (more (tree v vs) us) empty ks ls h below below' e =
      absurd (not-Below (p, mul64 v 1) _ ls (sym e) below')
  all_lines-injective m p (more u us) (more w ws) ks ls (h, hs) below below' e =
      let (first, rest) =
        lines-injective m p u w (all_lines 1 p us ++ ks) (all_lines m p ws ++ ls) h
          (lines-Below 1 p us ks below) (lines-Below m p ws ls below')
          (sym (append_assoc (lines 1 p u) (all_lines 1 p us) ks)
            ∙ e
            ∙ append_assoc (lines m p w) (all_lines m p ws) ls) in
      let (others, same) = all_lines-injective m p us ws ks ls hs below below' rest in
      (ap₂ more first others, same)

print-match :
    {T : Type 0} (R : TreeReader T) (fuel : ℕ) (src : T) (tgt : TreeNodeImpl) (m p : ℕ)
    → size (view tgt) ≤ fuel
    → tree_matches_for_mult R src tgt m ≡ true
    → print_tree_node R fuel src 1 p ≡ print_tree_node impl_reader fuel tgt m p
print-match R fuel src tgt m p few match =
    prints R fuel src (scale m (view tgt)) 1 p
      (omega
        (arith, few, size-SameShape (view tgt) (scale m (view tgt)) (scale-SameShape m (view tgt))))
      ((tree_matches_for_mult_iff R src tgt m).0 match)
    ∙ ap some (lines-scale m p (view tgt))
    ∙ sym (prints impl_reader fuel tgt (view tgt) m p few (StandsFor-view tgt (view tgt) refl))

print-differ :
    {T : Type 0} (R : TreeReader T) (fuel : ℕ) (src : T) (v : Tree) (tgt : TreeNodeImpl) (m p : ℕ)
    → StandsFor R src v
    → InRange v
    → size v ≤ fuel
    → size (view tgt) ≤ fuel
    → print_tree_node R fuel src 1 p ≡ print_tree_node impl_reader fuel tgt m p
    → tree_matches_for_mult R src tgt m ≡ true
unfolding Below
print-differ R fuel src v tgt m p stands range few few' e =
    let alike : lines 1 p v ≡ lines m p (view tgt) = ap lines_of (
      sym (prints R fuel src v 1 p few stands)
      ∙ e
      ∙ prints impl_reader fuel tgt (view tgt) m p few' (StandsFor-view tgt (view tgt) refl)) in
    let (same, none_left) =
      lines-injective m p v (view tgt) [] [] range tt tt (ap (λ ls. ls ++ []) alike) in
    (tree_matches_for_mult_iff R src tgt m).1 (subst (StandsFor R src) same stands)

-- The two files that `makeCall` writes when an answer does not match, the answer printed as it is and
-- the target with its values multiplied, are different then, and for an answer that matches they would
-- be equal. The answer is any node that stands for a tree of `int64` values.
pub print_tree_node_iff :
    {T : Type 0} (R : TreeReader T) (fuel : ℕ) (src : T) (v : Tree) (tgt : TreeNodeImpl) (m p : ℕ)
    → StandsFor R src v
    → InRange v
    → size v ≤ fuel
    → size (view tgt) ≤ fuel
    → (print_tree_node R fuel src 1 p ≡ print_tree_node impl_reader fuel tgt m p)
      ↔ (tree_matches_for_mult R src tgt m ≡ true)
print_tree_node_iff R fuel src v tgt m p stands range few few' =
    (print-differ R fuel src v tgt m p stands range few few', print-match R fuel src tgt m p few')
