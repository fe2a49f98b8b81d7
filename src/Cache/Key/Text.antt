-- ===== src/Cache/Key/Text.antt =====
-- The texts of strconv and sort that cache/key.go uses, as lists of bytes.
use awslib.Prelude.Int.{ℤ, pos, negsuc}
use awslib.Prelude.{
  ℕ, zero, suc, ◌+◌, ◌/◌, ◌%◌, ◌≡◌, refl, Bool, true, false, List, [], ◌∷◌, ◌++◌, ltb, eqb, arith,
  if◌then◌else◌,
}
use awslib.Strings.{codes}

-- strconv.FormatUint(n, 10): the fuel bounds the digits, and n digits are enough for n.
abbrev pub digits : ℕ → ℕ → List ℕ → List ℕ
digits zero n rest = rest
digits (suc fuel) n rest =
    if ltb n 10 then (48 + n) ∷ rest else digits fuel (n / 10) ((48 + n % 10) ∷ rest)

abbrev pub format_uint : ℕ → List ℕ
format_uint n = digits (suc n) n []

abbrev pub format_int : ℤ → List ℕ
format_int (pos n) = format_uint n
format_int (negsuc n) = 45 ∷ format_uint (suc n)

abbrev pub format_bool : Bool → List ℕ
format_bool true = codes "true"
format_bool false = codes "false"

-- The order of Go's strings, byte by byte.
unfoldable pub before : List ℕ → List ℕ → Bool
before [] t = true
before (a ∷ s) [] = false
before (a ∷ s) (b ∷ t) = if eqb a b then before s t else ltb a b

-- sort.Strings: the result is fixed by the order, so any sort gives it; this one inserts.
unfoldable pub insert : List ℕ → List (List ℕ) → List (List ℕ)
insert s [] = s ∷ []
insert s (t ∷ ts) = let rest = insert s ts in if before s t then s ∷ (t ∷ ts) else t ∷ rest

unfoldable pub sort : List (List ℕ) → List (List ℕ)
sort [] = []
sort (s ∷ ss) = insert s (sort ss)

-- strings.Join
unfoldable pub join : List ℕ → List (List ℕ) → List ℕ
join sep [] = []
join sep (s ∷ []) = s
join sep (s ∷ (t ∷ ts)) = s ++ (sep ++ join sep (t ∷ ts))

before_antisym : (s t : List ℕ) → before s t ≡ true → before t s ≡ true → s ≡ t
unfolding before
before_antisym [] [] h k = refl
before_antisym [] (b ∷ t) h k = absurd (ground arith)
before_antisym (a ∷ s) [] h k = absurd (ground arith)
before_antisym (a ∷ s) (b ∷ t) h k = ground (arith, before_antisym s t)

before_total : (s t : List ℕ) → before s t ≡ false → before t s ≡ true
unfolding before
before_total [] t h = absurd (ground arith)
before_total (a ∷ s) [] h = refl
before_total (a ∷ s) (b ∷ t) h = ground (arith, before_total s t)

before_trans : (s t u : List ℕ) → before s t ≡ true → before t u ≡ true → before s u ≡ true
unfolding before
before_trans [] t u h k = refl
before_trans (a ∷ s) [] u h k = absurd (ground arith)
before_trans (a ∷ s) (b ∷ t) [] h k = absurd (ground arith)
before_trans (a ∷ s) (b ∷ t) (c ∷ u) h k = ground (arith, before_trans s t u)

-- Two texts may be inserted in either order.
pub insert_comm :
    (s t : List ℕ) (ts : List (List ℕ)) → insert s (insert t ts) ≡ insert t (insert s ts)
unfolding insert
insert_comm s t [] = ground (arith, before_antisym s t, before_total s t, before_total t s)
insert_comm s t (u ∷ ts) = ground (
  arith,
  before_antisym s t,
  before_total s t,
  before_total t s,
  before_trans s t u,
  before_trans t s u,
  insert_comm s t ts,
)
