-- ===== src/Go/Io.antt =====
-- Functions that may fail and change a state. What was changed before an error stays changed, so
-- the state comes back beside the error too.
use gorpcbench.Go.Errors.{Error, Result, ok, err, stuck}

abbrev pub Io {ℓ} : Type ℓ → Type ℓ → Type ℓ
Io S A = S → Result A × S

-- Another error in place of the one that is returned.
abbrev pub with_error {ℓ} : {A : Type ℓ} → (Error → Error) → Result A → Result A
with_error f (ok a) = ok a
with_error f (err e) = err (f e)
with_error f stuck = stuck

module _ {ℓ} {S A : Type ℓ} where
  abbrev pub pure : A → Io S A
  pure a s = (ok a, s)

  abbrev pub raise : Error → Io S A
  raise e s = (err e, s)

  abbrev pub map_error : (Error → Error) → Io S A → Io S A
  map_error f m s = let (r, s') = m s in (with_error f r, s')

module _ {ℓ} {S A B : Type ℓ} where
  abbrev pub continue : Result A → (A → Io S B) → Io S B
  continue (ok a) f s = f a s
  continue (err e) f s = (err e, s)
  continue stuck f s = (stuck, s)

  infixl 5 ◌>>=◌ ◌>>◌
  abbrev pub ◌>>=◌ : Io S A → (A → Io S B) → Io S B
  ◌>>=◌ m f s = let (r, s') = m s in continue r f s'

  abbrev pub ◌>>◌ : Io S A → Io S B → Io S B
  m >> k = m >>= λ _. k
