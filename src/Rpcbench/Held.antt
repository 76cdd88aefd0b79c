-- ===== src/Rpcbench/Held.antt =====
-- Nodes of a message that a library reads: a read of the children may fail.
use gorpcbench.Prelude.{ℕ, suc, ◌≡◌, refl, ap, List, [], ◌∷◌, length}
use gorpcbench.Go.Errors.{Result, ok}
use gorpcbench.Rpcbench.Values.{Tree, tree, Trees, empty, more, width}

module _ {T : Type 0} (value : T → ℕ) (children : T → Result (List T)) where
  -- Every read of the tree from the node on succeeds.
  abbrev mutual
    pub HoldsTree : T → Tree → Type 0
    HoldsTree t (tree v us) =
        (value t ≡ v) × (ts : List T) × (children t ≡ ok ts) × AllHoldTrees ts us

    pub AllHoldTrees : List T → Trees → Type 0
    AllHoldTrees [] empty = Unit
    AllHoldTrees [] (more u us) = ⊥
    AllHoldTrees (t ∷ ts) empty = ⊥
    AllHoldTrees (t ∷ ts) (more u us) = HoldsTree t u × AllHoldTrees ts us

  pub length-AllHoldTrees : (ts : List T) (us : Trees) → AllHoldTrees ts us → length ts ≡ width us
  length-AllHoldTrees [] empty h = refl
  length-AllHoldTrees [] (more u us) h = absurd h
  length-AllHoldTrees (t ∷ ts) empty h = absurd h
  length-AllHoldTrees (t ∷ ts) (more u us) (h, hs) = ap suc (length-AllHoldTrees ts us hs)
