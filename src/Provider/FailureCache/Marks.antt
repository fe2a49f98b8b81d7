-- ===== src/Provider/FailureCache/Marks.antt =====
-- Which errors are about credentials.
use awslib.Errors.{Error}
use awslib.Prelude.{
  ℕ, String, ◌≡◌, true, List, [], ◌∷◌, ◌++◌, some, arith, Bool-cases, inl, inr, ◌↔◌,
}
use awslib.Provider.FailureCache.{contains_any, credential_failure, markers}
use awslib.Strings.{codes, to_lower, contains, contains-middle, contains_split}
use mathlib.Core.List.{Memᴰ}

-- One of the texts stands in the haystack, with these parts before and after it.
abbrev pub Embeds : List ℕ → List String → Type 0
Embeds hay ms =
    (m : String) × Memᴰ m ms × ((a : List ℕ) × (b : List ℕ) × (hay ≡ a ++ (codes m ++ b)))

contains_any_of_Embeds :
    (hay : List ℕ) {m : String} {ms : List String}
    → Memᴰ m ms
    → contains hay (codes m) ≡ true
    → contains_any hay ms ≡ true
unfolding contains_any
contains_any_of_Embeds hay (Memᴰ.head e) c = ground arith
contains_any_of_Embeds hay (Memᴰ.tail h) c = ground (arith, contains_any_of_Embeds hay h c)

Embeds-of_contains_any :
    (hay : List ℕ) (ms : List String) → contains_any hay ms ≡ true → Embeds hay ms
unfolding contains_any
Embeds-of_contains_any hay [] h = absurd (ground arith)
Embeds-of_contains_any hay (m ∷ ms) h = elim (Bool-cases (contains hay (codes m))) [
  | inl here ↦ (m, Memᴰ.head (λ i. m), contains_split hay (codes m) here)
  | inr later ↦ let (n, p, q) = Embeds-of_contains_any hay ms (ground arith) in (n, Memᴰ.tail p, q)
]

-- An error is a credential failure exactly when the lower case of its text has one of the seven
-- markers in it, at any place.
pub credential_failure_iff :
    (e : Error) → (credential_failure (some e) ≡ true) ↔ Embeds (to_lower (codes e.message)) markers
unfolding credential_failure
credential_failure_iff e = (
  Embeds-of_contains_any (to_lower (codes e.message)) markers,
  λ (m, p, (a, b, q)).
      contains_any_of_Embeds (to_lower (codes e.message)) p (rw q (contains-middle a (codes m) b)),
)
