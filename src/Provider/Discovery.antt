-- ===== src/Provider/Discovery.antt =====
-- provider/role_discovery.go: which roles the caller's role may assume, by its IAM policies. The
-- calls of the SDK, the parsing of ARNs, the decoding of URLs and JSON, and errors.New are
-- parameters.
pub mod Documents
pub mod Policies
pub mod Accounts
use Prim.Native.Char.{Char, code}
use awslib.Dict
use awslib.Dict.{Dict}
use awslib.Errors.{Error, Result, ok, fail}
use awslib.Exec.{Exec, pure, wrapping, ◌>>=◌}
use awslib.Prelude.{
  ℕ, zero, suc, eqb, String, Bool, true, false, ◌||◌, Option, none, some, List, [], ◌∷◌, ◌++◌, any,
  ◌==◌, string_eq, if◌then◌else◌,
}

-- A value of JSON, as an `interface{}`: a text, an array of texts and other values, or another one.
pub data Element : Type 0 where
  text_element : String → Element
  other_element : Element

pub data Any : Type 0 where
  text : String → Any
  array : List Element → Any
  other : Any

pub record Statement : Type 0 where
  pub effect : String
  pub action : Any
  pub resource : Any

pub record PolicyDocument : Type 0 where
  pub version : String
  pub statement : List Statement

abbrev pub is_text : String → Element → Bool
is_text target (text_element t) = t == target
is_text target other_element = false

unfoldable pub contains_action : Any → String → Bool
contains_action (text act) target_action = act == target_action
contains_action (array act) target_action = any (is_text target_action) act
contains_action other target_action = false

-- the loop over the resources
abbrev pub texts : List Element → List String
texts [] = []
texts (text_element role_arn ∷ elements) = role_arn ∷ texts elements
texts (other_element ∷ elements) = texts elements

abbrev pub role_arns : Any → List String
role_arns (text resource) = resource ∷ []
role_arns (array resource) = texts resource
role_arns other = []

abbrev pub assume_role : String
assume_role = "sts:AssumeRole"

-- extractAssumeRoleArnsFromDocument: the loop over the statements
unfoldable pub extract_from : List Statement → List String
extract_from [] = []
extract_from (stmt ∷ statements) =
    let rest = extract_from statements in
    if contains_action stmt.action assume_role then role_arns stmt.resource ++ rest else rest

abbrev pub extract_assume_role_arns_from_document : PolicyDocument → List String
extract_assume_role_arns_from_document doc = extract_from doc.statement

abbrev pub before_parts : Char → List String → List String
before_parts c [] = []
before_parts c (part ∷ parts) = String.◌∷◌ c part ∷ parts

-- strings.Split(s, "/")
abbrev pub split_slash : String → List String
split_slash String.[] = "" ∷ []
split_slash (String.◌∷◌ c s) =
    let parts = split_slash s in if eqb (code c) b'/' then "" ∷ parts else before_parts c parts

pub record Arn : Type 0 where
  pub account_id : String
  pub resource : String

-- The SDK and the standard library. A page of policies is the ARNs of the attached policies, and
-- whether there are more pages; NextPage moves the paginator, which is in the world.
pub record Iam (W : Type 0) : Type 0 where
  pub get_caller_identity : Exec W String
  pub parse : String → Result Arn
  pub new_paginator : String → W → W
  pub has_more_pages : W → Bool
  pub next_page : Exec W (List String)
  pub get_policy : String → Exec W String
  pub get_policy_version : String → String → Exec W String
  pub query_unescape : String → Result String
  pub unmarshal : String → Result PolicyDocument
  pub wrap : Error → Error
  pub invalid_role : String → Error

module _ {W : Type 0} (i : Iam W) where
  abbrev pub decoded : Result String → Result PolicyDocument
  decoded (fail e) = fail (i.wrap e)
  decoded (ok value) = elim (i.unmarshal value) [ ok doc ↦ ok doc | fail e ↦ fail (i.wrap e) ]

  unfoldable pub decode_policy_document : String → Result PolicyDocument
  decode_policy_document doc = decoded (i.query_unescape doc)

  abbrev pub arns_of : Result PolicyDocument → Result (List String)
  arns_of (ok doc) = ok (extract_assume_role_arns_from_document doc)
  arns_of (fail e) = fail (i.wrap e)

  unfoldable pub extract_assume_role_arns_from_policy : String → Exec W (List String)
  extract_assume_role_arns_from_policy policy =
      wrapping i.wrap (i.get_policy policy) >>= (λ version.
        wrapping i.wrap (i.get_policy_version policy version)
        >>= (λ document w. (arns_of (decode_policy_document document), w)))

  -- The loop over the pages; the number bounds the calls.
  unfoldable pub list_pages : ℕ → List String → W → Option (Result (List String) × W)
  list_pages zero policies w = if i.has_more_pages w then none else some (ok policies, w)
  list_pages (suc fuel) policies w =
      if i.has_more_pages w
      then (elim (i.next_page w).0 [
        | fail e ↦ some (fail (i.wrap e), (i.next_page w).1)
        | ok page ↦ list_pages fuel (policies ++ page) (i.next_page w).1
      ])
      else some (ok policies, w)

  unfoldable pub list_attached_role_policies : ℕ → String → W → Option (Result (List String) × W)
  list_attached_role_policies fuel role_name w = list_pages fuel [] (i.new_paginator role_name w)

  -- the loop over the policies: one that fails is skipped
  abbrev pub kept_arns : Result (List String) → List String → List String
  kept_arns (ok arns) role_arns = role_arns ++ arns
  kept_arns (fail e) role_arns = role_arns

  unfoldable pub collect : List String → List String → W → List String × W
  collect [] role_arns w = (role_arns, w)
  collect (policy ∷ policies) role_arns w =
      let (arns, w') = extract_assume_role_arns_from_policy policy w in
      collect policies (kept_arns arns role_arns) w'

  abbrev pub collected : Result (List String) × W → Result (List String) × W
  collected (fail e, w) = (fail (i.wrap e), w)
  collected (ok policies, w) = let (arns, w') = collect policies [] w in (ok arns, w')

  abbrev pub and_then : {A B : Type 0} → (A → B) → Option A → Option B
  and_then f none = none
  and_then f (some a) = some (f a)

  unfoldable pub discover_assumable_roles : ℕ → String → W → Option (Result (List String) × W)
  discover_assumable_roles fuel role_name w =
      and_then collected (list_attached_role_policies fuel role_name w)

  -- the loop that makes the map
  unfoldable pub by_account : List String → Dict String String → Dict String String
  by_account [] roles = roles
  by_account (role_arn ∷ arns) roles = elim (i.parse role_arn) [
    | ok arn ↦ by_account arns (Dict.insert arn.account_id role_arn roles)
    | fail e ↦ by_account arns roles
  ]

  abbrev pub mapped : Result (List String) × W → Result (Dict String String) × W
  mapped (fail e, w) = (fail (i.wrap e), w)
  mapped (ok arns, w) = (ok (by_account arns []), w)

  abbrev pub role_name_of : String → List String → Result String
  role_name_of caller (kind ∷ (name ∷ parts)) = ok name
  role_name_of caller _ = fail (i.invalid_role caller)

  abbrev pub caller_role : Result String → Result String
  caller_role (fail e) = fail (i.wrap e)
  caller_role (ok caller) = elim (i.parse caller) [
    | fail e ↦ fail (i.wrap e)
    | ok role_arn ↦ role_name_of caller (split_slash role_arn.resource)
  ]

  abbrev pub discovered : ℕ → Result String → W → Option (Result (Dict String String) × W)
  discovered fuel (fail e) w = some (fail e, w)
  discovered fuel (ok role_name) w = and_then mapped (discover_assumable_roles fuel role_name w)

  unfoldable pub discover_assumable_roles_from_current_role :
      ℕ → W → Option (Result (Dict String String) × W)
  discover_assumable_roles_from_current_role fuel w =
      let (caller, w') = i.get_caller_identity w in discovered fuel (caller_role caller) w'
