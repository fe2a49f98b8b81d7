-- ===== src/Errors.antt =====
-- Go's `error` values. An error is known by its text; `nil` is `none`.
use awslib.Prelude.{String, ◌≡◌, ◌⊎◌, inl, inr}

pub record Error : Type 0 where
  pub message : String

-- The pair `(value, nil)` or `(nil, err)` that a call outside the repository answers with.
pub data Result {ℓ} (A : Type ℓ) : Type ℓ where
  ok : A → Result A
  fail : Error → Result A

pub Result-cases {ℓ} :
    {A : Type ℓ} (r : Result A) → ((a : A) × (r ≡ ok a)) ⊎ ((e : Error) × (r ≡ fail e))
Result-cases (ok a) = inl (a, λ i. ok a)
Result-cases (fail e) = inr (e, λ i. fail e)
