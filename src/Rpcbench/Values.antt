-- ===== src/Rpcbench/Values.antt =====
-- What a tree of any representation stands for: a value and the trees of its children. Nothing of
-- the storage is left. The wire formats carry the values in the order of `preorder`.
pub mod Narrow
use mathlib.Core.Path.{subst}
use gorpcbench.Prelude.{
  ℕ, suc, ◌+◌, ◌≡◌, refl, ap, arith, List, [], ◌∷◌, ◌++◌, map, length, length-append, All,
  All-append,
}
use gorpcbench.Go.Int64.{IsInt64, mul64, mul64-IsInt64}

mutual
  pub data Tree : Type 0 where
    tree : ℕ → Trees → Tree

  pub data Trees : Type 0 where
    empty : Trees
    more : Tree → Trees → Trees

unfoldable mutual
  pub size : Tree → ℕ
  size (tree v ts) = suc (size_all ts)

  pub size_all : Trees → ℕ
  size_all empty = 0
  size_all (more t ts) = size t + size_all ts

unfoldable mutual
  pub preorder : Tree → List ℕ
  preorder (tree v ts) = v ∷ preorder_all ts

  pub preorder_all : Trees → List ℕ
  preorder_all empty = []
  preorder_all (more t ts) = preorder t ++ preorder_all ts

-- Every value of the tree multiplied by `m`, in `int64`.
unfoldable mutual
  pub scale : ℕ → Tree → Tree
  scale m (tree v ts) = tree (mul64 v m) (scale_all m ts)

  pub scale_all : ℕ → Trees → Trees
  scale_all m empty = empty
  scale_all m (more t ts) = more (scale m t) (scale_all m ts)

abbrev mutual
  pub SameShape : Tree → Tree → Type 0
  SameShape (tree v ts) (tree w us) = SameShapes ts us

  pub SameShapes : Trees → Trees → Type 0
  SameShapes empty empty = Unit
  SameShapes empty (more u us) = ⊥
  SameShapes (more t ts) empty = ⊥
  SameShapes (more t ts) (more u us) = SameShape t u × SameShapes ts us

abbrev pub width : Trees → ℕ
width empty = 0
width (more t ts) = suc (width ts)

-- Every node has a number of children that `P` allows.
abbrev mutual
  pub Widths : (ℕ → Type 0) → Tree → Type 0
  Widths P (tree v ts) = P (width ts) × AllWidths P ts

  pub AllWidths : (ℕ → Type 0) → Trees → Type 0
  AllWidths P empty = Unit
  AllWidths P (more t ts) = Widths P t × AllWidths P ts

mutual
  any_width : (t : Tree) → Widths (λ n. Unit) t
  any_width (tree v ts) = (tt, any_widths ts)

  any_widths : (ts : Trees) → AllWidths (λ n. Unit) ts
  any_widths empty = tt
  any_widths (more t ts) = (any_width t, any_widths ts)

pub Widths-any : (t : Tree) → Widths (λ n. Unit) t
Widths-any t = any_width t

pub width-scale_all : (m : ℕ) (us : Trees) → width (scale_all m us) ≡ width us
unfolding scale
width-scale_all m empty = refl
width-scale_all m (more u us) = ap suc (width-scale_all m us)

-- Every value is an `int64`.
abbrev mutual
  pub InRange : Tree → Type 0
  InRange (tree v ts) = IsInt64 v × AllInRange ts

  pub AllInRange : Trees → Type 0
  AllInRange empty = Unit
  AllInRange (more t ts) = InRange t × AllInRange ts

mutual
  unfolding size preorder

  pub length-preorder : (t : Tree) → length (preorder t) ≡ size t
  length-preorder (tree v ts) = ap suc (length-preorder_all ts)

  pub length-preorder_all : (ts : Trees) → length (preorder_all ts) ≡ size_all ts
  length-preorder_all empty = refl
  length-preorder_all (more t ts) = omega (
    arith,
    length-append (preorder t) (preorder_all ts),
    length-preorder t,
    length-preorder_all ts,
  )

map_append : (f : ℕ → ℕ) (xs ys : List ℕ) → map f (xs ++ ys) ≡ map f xs ++ map f ys
map_append f [] ys = refl
map_append f (x ∷ xs) ys = ap (λ t. f x ∷ t) (map_append f xs ys)

mutual
  unfolding scale preorder

  pub preorder-scale : (m : ℕ) (t : Tree) → preorder (scale m t) ≡ map (λ v. mul64 v m) (preorder t)
  preorder-scale m (tree v ts) = ap (λ l. mul64 v m ∷ l) (preorder-scale_all m ts)

  pub preorder-scale_all :
      (m : ℕ) (ts : Trees) → preorder_all (scale_all m ts) ≡ map (λ v. mul64 v m) (preorder_all ts)
  preorder-scale_all m empty = refl
  preorder-scale_all m (more t ts) =
      rw (preorder-scale m t, preorder-scale_all m ts, map_append _ (preorder t) (preorder_all ts))

mutual
  unfolding scale

  pub scale-SameShape : (m : ℕ) (t : Tree) → SameShape t (scale m t)
  scale-SameShape m (tree v ts) = scale_all-SameShapes m ts

  pub scale_all-SameShapes : (m : ℕ) (ts : Trees) → SameShapes ts (scale_all m ts)
  scale_all-SameShapes m empty = tt
  scale_all-SameShapes m (more t ts) = (scale-SameShape m t, scale_all-SameShapes m ts)

mutual
  unfolding preorder

  pub preorder-InRange : (t : Tree) → InRange t → All IsInt64 (preorder t)
  preorder-InRange (tree v ts) (h, hs) = (h, preorder_all-InRange ts hs)

  pub preorder_all-InRange : (ts : Trees) → AllInRange ts → All IsInt64 (preorder_all ts)
  preorder_all-InRange empty h = tt
  preorder_all-InRange (more t ts) (h, hs) =
      All-append _ (preorder t) (preorder_all ts) (preorder-InRange t h)
        (preorder_all-InRange ts hs)

mutual
  unfolding scale

  pub scale-InRange : (m : ℕ) (t : Tree) → InRange (scale m t)
  scale-InRange m (tree v ts) = (mul64-IsInt64 v m, scale_all-AllInRange m ts)

  pub scale_all-AllInRange : (m : ℕ) (ts : Trees) → AllInRange (scale_all m ts)
  scale_all-AllInRange m empty = tt
  scale_all-AllInRange m (more t ts) = (scale-InRange m t, scale_all-AllInRange m ts)

mutual
  unfolding size

  pub size-SameShape : (t u : Tree) → SameShape t u → size t ≡ size u
  size-SameShape (tree v ts) (tree w us) h = ap suc (size_all-SameShapes ts us h)

  pub size_all-SameShapes : (ts us : Trees) → SameShapes ts us → size_all ts ≡ size_all us
  size_all-SameShapes empty empty h = refl
  size_all-SameShapes empty (more u us) h = absurd h
  size_all-SameShapes (more t ts) empty h = absurd h
  size_all-SameShapes (more t ts) (more u us) (h, hs) =
      omega (arith, size-SameShape t u h, size_all-SameShapes ts us hs)

width_same : (ts us : Trees) → SameShapes ts us → width ts ≡ width us
width_same empty empty h = refl
width_same empty (more u us) h = absurd h
width_same (more t ts) empty h = absurd h
width_same (more t ts) (more u us) (h, hs) = ap suc (width_same ts us hs)

module _ (P : ℕ → Type 0) where
  mutual
    reshaped : (t u : Tree) → SameShape t u → Widths P t → Widths P u
    reshaped (tree v ts) (tree w us) same (h, hs) =
        (subst P (width_same ts us same) h, all_reshaped ts us same hs)

    all_reshaped : (ts us : Trees) → SameShapes ts us → AllWidths P ts → AllWidths P us
    all_reshaped empty empty same hs = tt
    all_reshaped empty (more u us) same hs = absurd same
    all_reshaped (more t ts) empty same hs = absurd same
    all_reshaped (more t ts) (more u us) (one, same) (h, hs) =
        (reshaped t u one h, all_reshaped ts us same hs)

  pub Widths-SameShape : (t u : Tree) → SameShape t u → Widths P t → Widths P u
  Widths-SameShape t u same h = reshaped t u same h
