-- ===== src/Exec.antt =====
-- Methods that change an object and may fail: the changes made before a failure stay made.
use awslib.Errors.{Error, Result, ok, fail}

abbrev pub Exec {ℓ} : Type ℓ → Type ℓ → Type ℓ
Exec S A = S → Result A × S

abbrev pub wrapped {ℓ} : {A : Type ℓ} → (Error → Error) → Result A → Result A
wrapped wrap (ok a) = ok a
wrapped wrap (fail e) = fail (wrap e)

module _ {ℓ} {S A B : Type ℓ} where
  abbrev pub continue : Result A → (A → Exec S B) → Exec S B
  continue (ok a) f s = f a s
  continue (fail e) f s = (fail e, s)

  infixl 5 ◌>>=◌
  abbrev pub ◌>>=◌ : Exec S A → (A → Exec S B) → Exec S B
  ◌>>=◌ m f s = continue (m s).0 f (m s).1

module _ {ℓ} {S A : Type ℓ} where
  abbrev pub pure : A → Exec S A
  pure a s = (ok a, s)

  -- `return nil, errors.New(err)` where the call failed
  abbrev pub wrapping : (Error → Error) → Exec S A → Exec S A
  wrapping wrap m s = (wrapped wrap (m s).0, (m s).1)
