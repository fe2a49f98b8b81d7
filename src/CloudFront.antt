-- ===== src/CloudFront.antt =====
-- service/cloudfront/errors.go: the errors that the repositories answer. An error of the API is known
-- by its text and by the SDK's error types that errors.As finds in it.
pub mod Calls
pub mod Tenants
pub mod Groups
use awslib.Errors.{Error}
use awslib.Prelude.{Bool, true, false, ◌||◌, Option, none, some, List, [], ◌∷◌, any, if◌then◌else◌}

-- the SDK's error types that matter here
pub data Shape : Type 0 where
  entity_not_found : Shape
  no_such_resource : Shape
  no_such_distribution : Shape
  entity_already_exists : Shape
  cname_already_exists : Shape
  precondition_failed_shape : Shape
  invalid_if_match_version : Shape
  resource_not_disabled : Shape
  distribution_not_disabled : Shape
  resource_in_use : Shape
  cannot_delete_while_in_use : Shape
  cannot_update_while_in_use : Shape
  entity_limit_exceeded : Shape
  too_many_distribution_cnames : Shape

-- ErrNotFound, ErrAlreadyExists, ErrPreconditionFailed, ErrNotDisabled, ErrInUse, ErrLimitExceeded
pub data Sentinel : Type 0 where
  err_not_found : Sentinel
  err_already_exists : Sentinel
  err_precondition_failed : Sentinel
  err_not_disabled : Sentinel
  err_in_use : Sentinel
  err_limit_exceeded : Sentinel

pub record ApiError : Type 0 where
  pub text : Error
  pub shapes : List Shape

-- errors.Is finds the sentinel in the first two; the last two are errors without one.
pub data RepositoryError : Type 0 where
  classified : Sentinel → ApiError → RepositoryError
  sentinel : Sentinel → RepositoryError
  unclassified : ApiError → RepositoryError
  invalid : Error → RepositoryError

-- the sentinel of an error type
abbrev pub sentinel_of : Shape → Sentinel
sentinel_of entity_not_found = err_not_found
sentinel_of no_such_resource = err_not_found
sentinel_of no_such_distribution = err_not_found
sentinel_of entity_already_exists = err_already_exists
sentinel_of cname_already_exists = err_already_exists
sentinel_of precondition_failed_shape = err_precondition_failed
sentinel_of invalid_if_match_version = err_precondition_failed
sentinel_of resource_not_disabled = err_not_disabled
sentinel_of distribution_not_disabled = err_not_disabled
sentinel_of resource_in_use = err_in_use
sentinel_of cannot_delete_while_in_use = err_in_use
sentinel_of cannot_update_while_in_use = err_in_use
sentinel_of entity_limit_exceeded = err_limit_exceeded
sentinel_of too_many_distribution_cnames = err_limit_exceeded

abbrev pub same_sentinel : Sentinel → Sentinel → Bool
same_sentinel err_not_found err_not_found = true
same_sentinel err_already_exists err_already_exists = true
same_sentinel err_precondition_failed err_precondition_failed = true
same_sentinel err_not_disabled err_not_disabled = true
same_sentinel err_in_use err_in_use = true
same_sentinel err_limit_exceeded err_limit_exceeded = true
same_sentinel s t = false

-- a case of the switch of matchSentinel: some type of the sentinel is in the error
abbrev pub matches : Sentinel → List Shape → Bool
matches s shapes = any (λ shape. same_sentinel (sentinel_of shape) s) shapes

abbrev pub first_match : List Sentinel → List Shape → Option Sentinel
first_match [] shapes = none
first_match (s ∷ sentinels) shapes =
    if matches s shapes then some s else first_match sentinels shapes

unfoldable pub match_sentinel : ApiError → Option Sentinel
match_sentinel err =
    first_match
      (err_not_found
        ∷ (err_already_exists
            ∷ (err_precondition_failed
                ∷ (err_not_disabled ∷ (err_in_use ∷ (err_limit_exceeded ∷ []))))))
      err.shapes

unfoldable pub classify_err : ApiError → RepositoryError
classify_err err = elim (match_sentinel err) [ some s ↦ classified s err | none ↦ unclassified err ]

-- errors.Is(err, s)
abbrev pub is_sentinel : Sentinel → RepositoryError → Bool
is_sentinel s (classified t err) = same_sentinel t s
is_sentinel s (sentinel t) = same_sentinel t s
is_sentinel s (unclassified err) = false
is_sentinel s (invalid err) = false
