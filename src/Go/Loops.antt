-- ===== src/Go/Loops.antt =====
-- Loops over slices that leave at the first error.
use gorpcbench.Prelude.{List, [], ◌∷◌}
use gorpcbench.Go.Errors.{Result, ok, err, stuck}

-- A loop that changes its targets in place. A target that is not there panics.
abbrev pub keep_target {ℓ} :
    {A : Type ℓ}
    → Result (Unit {0}) × A
    → List A
    → Result (Unit {0}) × List A
    → Result (Unit {0}) × List A
keep_target (ok x, t) old (r, ts) = (r, t ∷ ts)
keep_target (err e, t) old rest = (err e, t ∷ old)
keep_target (stuck, t) old rest = (stuck, t ∷ old)

abbrev pub each_pair {ℓ κ} :
    {A : Type ℓ} {B : Type κ}
    → (A → B → Result (Unit {0}) × B)
    → List A
    → List B
    → Result (Unit {0}) × List B
each_pair f [] ts = (ok tt, ts)
each_pair f (s ∷ ss) [] = (stuck, [])
each_pair f (s ∷ ss) (t ∷ ts) = keep_target (f s t) ts (each_pair f ss ts)
