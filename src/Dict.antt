-- ===== src/Dict.antt =====
-- Go's maps. The order in which a map is walked is not fixed by Go; here it is the order of first
-- insertion, and no statement about the program depends on it.
pub mod Laws
pub mod Nested
use awslib.Prelude.{
  Bool, true, false, Option, none, some, List, [], ◌∷◌, map, Eq, ◌==◌, if◌then◌else◌,
}

abbrev pub Dict {ℓ} : Type ℓ → Type ℓ → Type ℓ
Dict K V = List (K × V)

module _ {ℓ} {K V : Type ℓ} ⦃e : Eq K⦄ where
  -- v, ok := m[k]
  unfoldable pub lookup : K → Dict K V → Option V
  lookup key [] = none
  lookup key ((at, value) ∷ d) = if at == key then some value else lookup key d

  -- m[k] = v
  unfoldable pub insert : K → V → Dict K V → Dict K V
  insert key value [] = (key, value) ∷ []
  insert key value ((at, old) ∷ d) =
      if at == key then (key, value) ∷ d else (at, old) ∷ insert key value d

  -- delete(m, k)
  unfoldable pub delete : K → Dict K V → Dict K V
  delete k [] = []
  delete k ((j, w) ∷ m) = elim (j == k) [ true ↦ delete k m | false ↦ (j, w) ∷ delete k m ]

module _ {ℓ} {K V : Type ℓ} where
  unfoldable pub keys : Dict K V → List K
  keys = map (λ kv. kv.0)

  unfoldable pub values : Dict K V → List V
  values = map (λ kv. kv.1)
