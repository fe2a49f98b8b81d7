-- ===== src/Provider/FailureCache.antt =====
-- provider/v3/failure_cache.go: the client failures remembered for each account and region. A nil
-- cache is `none`; instants and durations are nanoseconds, and `now` is the clock when it is read.
pub mod Marks
pub mod Reads
pub mod History
use awslib.Dict.Nested
use awslib.Dict.{Dict}
use awslib.Errors.{Error}
use awslib.Prelude.Int.{ℤ, pos, sub_ℕ, ltb_ℤ, leb_ℤ}
use awslib.Prelude.{
  ℕ, ◌*◌, String, Bool, true, false, ◌||◌, Option, none, some, List, [], ◌∷◌, if◌then◌else◌,
  string_eq,
}
use awslib.Strings.{codes, to_lower, contains}

-- 3 * time.Hour
abbrev pub default_client_failure_ttl : ℤ
default_client_failure_ttl = pos (3 * 3_600_000_000_000)

abbrev pub markers : List String
markers =
    "expired" ∷ "failed to refresh" ∷ "invalidgrant" ∷ "unauthorizedexception"
    ∷ "nocredentialproviders" ∷ "failed to retrieve credentials" ∷ "no valid credential" ∷ []

-- the loop over the markers
unfoldable pub contains_any : List ℕ → List String → Bool
contains_any haystack [] = false
contains_any haystack (marker ∷ rest) =
    contains haystack (codes marker) || contains_any haystack rest

unfoldable pub credential_failure : Option Error → Bool
credential_failure none = false
credential_failure (some err) = contains_any (to_lower (codes err.message)) markers

pub record FailureEntry : Type 0 where
  pub err : Error
  pub at : ℕ

pub record FailureCache : Type 0 where
  pub ttl : ℤ
  pub entries : Dict String (Dict String FailureEntry)

unfoldable pub new_failure_cache : ℤ → FailureCache
new_failure_cache ttl = record {
  ttl = if leb_ℤ ttl (pos 0) then default_client_failure_ttl else ttl;
  entries = [];
}

-- time.Since(entry.at) > c.ttl
abbrev pub lapsed : ℤ → ℕ → FailureEntry → Bool
lapsed ttl now entry = ltb_ℤ ttl (sub_ℕ now entry.at)

-- The answer is an error or nil; a stale entry is dropped on the way.
unfoldable pub err : Option FailureCache → ℕ → String → String → Option FailureCache × Option Error
err none now account region = (none, none)
err (some c) now account region = elim (Nested.lookup account region c.entries) [
  | none ↦ (some c, none)
  | some entry ↦
      if lapsed c.ttl now entry
      then (some (record c { entries = Nested.delete account region c.entries }), none)
      else (some c, some entry.err)
]

unfoldable pub add : Option FailureCache → ℕ → String → String → Option Error → Option FailureCache
add none now account region e = none
add (some c) now account region none = some c
add (some c) now account region (some e) =
    if credential_failure (some e)
    then some c
    else some (record c {
      entries = Nested.insert account region (record { err = e; at = now }) c.entries;
    })

unfoldable pub forget : Option FailureCache → String → String → Option FailureCache
forget none account region = none
forget (some c) account region =
    some (record c { entries = Nested.delete account region c.entries })
