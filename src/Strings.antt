-- ===== src/Strings.antt =====
-- The parts of Go's `strings` that the library uses, over the code points of a text.
use Prim.Native.Char.{code}
use awslib.Prelude.{
  ℕ, ◌+◌, String, ◌≡◌, refl, Bool, true, false, ◌&&◌, ◌||◌, List, [], ◌∷◌, ◌++◌, map, arith, eqb,
  ap, Bool-cases, inl, inr, leb, if◌then◌else◌,
}

abbrev pub codes : String → List ℕ
codes String.[] = []
codes (String.◌∷◌ c s) = code c ∷ codes s

-- `unicode.ToLower` on the code points whose lower case is ASCII: the capital letters, the dotted
-- capital I and the Kelvin sign. Other code points stay as they are; none of them lowers to ASCII.
abbrev pub lower_rune : ℕ → ℕ
lower_rune c =
    if leb b'A' c && leb c b'Z'
    then c + 32
    else if eqb c 0x130
    then b'i'
    else if eqb c 0x212a
    then b'k'
    else c

-- strings.ToLower
unfoldable pub to_lower : List ℕ → List ℕ
to_lower = map lower_rune

unfoldable pub has_prefix : List ℕ → List ℕ → Bool
has_prefix [] s = true
has_prefix (c ∷ p) [] = false
has_prefix (c ∷ p) (d ∷ s) = eqb c d && has_prefix p s

-- strings.Contains(s, sub)
unfoldable pub contains : List ℕ → List ℕ → Bool
unfolding has_prefix
contains [] sub = has_prefix sub []
contains (c ∷ s) sub = has_prefix sub (c ∷ s) || contains s sub

has_prefix-append : (p s : List ℕ) → has_prefix p (p ++ s) ≡ true
unfolding has_prefix
has_prefix-append [] s = refl
has_prefix-append (c ∷ p) s = ground (arith, has_prefix-append p s)

has_prefix_split : (p s : List ℕ) → has_prefix p s ≡ true → (t : List ℕ) × (s ≡ p ++ t)
unfolding has_prefix
has_prefix_split [] s h = (s, refl)
has_prefix_split (c ∷ p) [] h = absurd (ground arith)
has_prefix_split (c ∷ p) (d ∷ s) h =
    let (t, e) = has_prefix_split p s (ground arith) in (t, ground arith)

-- A text contains whatever stands between two parts of it.
pub contains-middle : (a sub b : List ℕ) → contains (a ++ (sub ++ b)) sub ≡ true
unfolding contains
contains-middle [] [] [] = refl
contains-middle [] [] (c ∷ b) = refl
contains-middle [] (c ∷ sub) b = ground (arith, has_prefix-append (c ∷ sub) b)
contains-middle (c ∷ a) sub b = ground (arith, contains-middle a sub b)

pub contains_split :
    (s sub : List ℕ) → contains s sub ≡ true → (a : List ℕ) × (b : List ℕ) × (s ≡ a ++ (sub ++ b))
unfolding contains
contains_split [] sub h = let (t, e) = has_prefix_split sub [] h in ([], t, e)
contains_split (c ∷ s) sub h = elim (Bool-cases (has_prefix sub (c ∷ s))) [
  | inl here ↦ let (t, e) = has_prefix_split sub (c ∷ s) here in ([], t, e)
  | inr later ↦ let (a, b, e) = contains_split s sub (ground arith) in (c ∷ a, b, ap (◌∷◌ c) e)
]
