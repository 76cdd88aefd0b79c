-- ===== src/Go/Results.antt =====
-- Chains of calls that return a value or an error, and change nothing that the model keeps.
use gorpcbench.Go.Errors.{Result, ok, err, stuck}

infixl 5 ◌>>=◌ ◌>>◌
abbrev pub ◌>>=◌ {ℓ κ} : {A : Type ℓ} {B : Type κ} → Result A → (A → Result B) → Result B
ok a >>= f = f a
err e >>= f = err e
stuck >>= f = stuck

abbrev pub ◌>>◌ {ℓ κ} : {A : Type ℓ} {B : Type κ} → Result A → Result B → Result B
r >> s = r >>= λ _. s
