-- ===== src/Examples/Failures.antt =====
-- provider/v3/failure_cache.go at concrete calls.
use mathlib.Core.List.{foldl}
use awslib.Dict
use awslib.Dict.Nested
use awslib.Errors.{Error}
use awslib.Prelude.Int.{pos}
use awslib.Prelude.{ℕ, ◌≡◌, refl, true, false, ◌↔◌, some, none, List, [], ◌∷◌, arith, string_eq}
use awslib.Provider.FailureCache.{
  credential_failure, markers, new_failure_cache, add, err, contains_any,
}
use awslib.Provider.FailureCache.History.{Call, ask, report, step, note, fresh, err-history}
use awslib.Provider.FailureCache.Marks.{Embeds, credential_failure_iff}
use awslib.Strings.{codes, to_lower, contains}

abbrev pub disabled : Error
disabled = record { message = "InvalidClientTokenId" }

abbrev pub signed_out : Error
signed_out = record { message = "ExpiredToken: sign in again" }

disabled_is_kept : credential_failure (some disabled) ≡ false
unfolding credential_failure contains_any to_lower contains
disabled_is_kept = refl

signed_out_is_not : credential_failure (some signed_out) ≡ true
unfolding credential_failure contains_any to_lower contains
signed_out_is_not = refl

credential_failure_iff_example :
    (credential_failure (some signed_out) ≡ true)
    ↔ Embeds (to_lower (codes signed_out.message)) markers
credential_failure_iff_example = credential_failure_iff signed_out

abbrev calls : List (ℕ × Call)
calls =
    (1, report "1" "me-south-1" (some disabled))
    ∷ (2, report "1" "eu-west-1" (some signed_out))
    ∷ (3, ask "1" "me-south-1")
    ∷ []

err-history_example :
    (err (foldl step (some (new_failure_cache (pos 10))) calls) 11 "1" "me-south-1").1
    ≡ fresh (new_failure_cache (pos 10)).ttl 11 (foldl (note "1" "me-south-1") none calls)
err-history_example = err-history (pos 10) calls 11 "1" "me-south-1" (omega arith)

told_until_it_lapses :
    ((err (foldl step (some (new_failure_cache (pos 10))) calls) 11 "1" "me-south-1").1
      ≡ some disabled)
    × ((err (foldl step (some (new_failure_cache (pos 10))) calls) 12 "1" "me-south-1").1 ≡ none)
unfolding err step add new_failure_cache Nested.lookup Nested.insert Nested.delete Dict.lookup
    Dict.insert Dict.delete credential_failure contains_any to_lower contains
told_until_it_lapses = (refl, refl)
