-- ===== src/CloudFront/Calls.antt =====
-- service/cloudfront: what the methods of the repository share: the calls of the API, the checks of
-- their arguments and the early returns.
use awslib.CloudFront.{ApiError, RepositoryError, err_not_found, invalid, classify_err, is_sentinel}
use awslib.Prelude.{
  String, Bool, true, false, not, Option, none, some, ◌==◌, string_eq, if◌then◌else◌,
}

-- the answer of a call: a value or an error of the API
pub data Call (A : Type 0) : Type 0 where
  answered : A → Call A
  refused : ApiError → Call A

-- Go's pair of a value and an error
pub data Answer (A : Type 0) : Type 0 where
  got : A → Answer A
  failed : RepositoryError → Answer A

-- aws.ToString and aws.ToBool
abbrev pub to_string : Option String → String
to_string none = ""
to_string (some s) = s

abbrev pub to_bool : Option Bool → Bool
to_bool none = false
to_bool (some b) = b

abbrev pub answer_of : {A : Type 0} → Call A → Answer A
answer_of (answered a) = got a
answer_of (refused err) = failed (classify_err err)

abbrev pub invalid_text : String → RepositoryError
invalid_text message = invalid (record { message = message })

abbrev pub same_bool : Bool → Bool → Bool
same_bool true b = b
same_bool false b = not b

abbrev pub Run : Type 0 → Type 0 → Type 0
Run W A = W → Answer A × W

module _ {W : Type 0} where
  abbrev pub called : {A : Type 0} → (W → Call A × W) → Run W A
  called call w = (answer_of (call w).0, (call w).1)

  abbrev pub stopped : {A : Type 0} → RepositoryError → Run W A
  stopped err w = (failed err, w)

  -- an early return where the text is empty
  abbrev pub unless_empty : {A : Type 0} → String → String → Run W A → Run W A
  unless_empty s message run w = if s == "" then (failed (invalid_text message), w) else run w

  -- an early return where there is an error
  abbrev pub and_then : {A B : Type 0} → Answer A × W → (A → Run W B) → Answer B × W
  and_then (got a, w) run = run a w
  and_then (failed err, w) run = (failed err, w)

  -- ErrNotFound counts as done.
  abbrev pub gone_is_done : Answer Unit × W → Answer Unit × W
  gone_is_done (got a, w) = (got a, w)
  gone_is_done (failed err, w) =
      if is_sentinel err_not_found err then (got tt, w) else (failed err, w)
