-- ===== src/CloudFront/Groups.antt =====
-- service/cloudfront/connection_group_repository.go: the connection groups. The calls of the API are
-- parameters; metrics and logs are left out.
use Prim.Native.String.{◌++◌ as concat}
use awslib.CloudFront.{RepositoryError, err_not_found, classify_err, is_sentinel}
use awslib.CloudFront.Calls.{
  Call, answered, refused, Answer, got, failed, to_string, to_bool, invalid_text, Run, called,
  unless_empty, and_then, gone_is_done,
}
use awslib.Prelude.{
  ℕ, zero, suc, String, Bool, false, Option, none, some, List, [], ◌++◌, if◌then◌else◌,
}

-- cftypes.ConnectionGroup and its ETag, as far as they are used here
pub record ConnectionGroup : Type 0 where
  pub id : Option String
  pub enabled : Option Bool
  pub is_default : Option Bool
  pub etag : String

pub record UpdateInput : Type 0 where
  pub id : Option String
  pub if_match : Option String
  pub enabled : Option Bool

pub record CreateInput : Type 0 where
  pub name : Option String

-- The SDK's client and its paginator of summaries S, which is in the world.
pub record GroupApi (W S : Type 0) : Type 0 where
  pub get_connection_group : String → W → Call (Option ConnectionGroup) × W
  pub get_connection_group_by_routing_endpoint : String → W → Call (Option ConnectionGroup) × W
  pub create_connection_group : CreateInput → W → Call (Option ConnectionGroup) × W
  pub update_connection_group : UpdateInput → W → Call (Option ConnectionGroup) × W
  pub delete_connection_group : Option String → Option String → W → Call Unit × W
  pub new_paginator : W → W
  pub has_more_pages : W → Bool
  pub next_page : W → Call (List S) × W

module _ {W S : Type 0} (api : GroupApi W S) where
  -- The loop over the pages; the number bounds the calls. What was listed is handed on with an error.
  unfoldable pub list_pages : ℕ → List S → W → Option ((List S × Option RepositoryError) × W)
  list_pages zero groups w = if api.has_more_pages w then none else some ((groups, none), w)
  list_pages (suc fuel) groups w =
      if api.has_more_pages w
      then (elim (api.next_page w).0 [
        | refused err ↦ some ((groups, some (classify_err err)), (api.next_page w).1)
        | answered page ↦ list_pages fuel (groups ++ page) (api.next_page w).1
      ])
      else some ((groups, none), w)

  unfoldable pub list_connection_groups_by_input :
      ℕ → W → Option ((List S × Option RepositoryError) × W)
  list_connection_groups_by_input fuel w = list_pages fuel [] (api.new_paginator w)

  unfoldable pub list_connection_groups_all : ℕ → W → Option ((List S × Option RepositoryError) × W)
  list_connection_groups_all = list_connection_groups_by_input

  unfoldable pub get_connection_group_by_input : Option String → Run W (Option ConnectionGroup)
  get_connection_group_by_input identifier =
      unless_empty (to_string identifier) "Identifier cannot be empty"
        (called (api.get_connection_group (to_string identifier)))

  unfoldable pub get_connection_group : String → Run W (Option ConnectionGroup)
  get_connection_group identifier = get_connection_group_by_input (some identifier)

  unfoldable pub get_connection_group_by_routing_endpoint : String → Run W (Option ConnectionGroup)
  get_connection_group_by_routing_endpoint routing_endpoint =
      unless_empty routing_endpoint "RoutingEndpoint cannot be empty"
        (called (api.get_connection_group_by_routing_endpoint routing_endpoint))

  unfoldable pub create_connection_group : CreateInput → Run W (Option ConnectionGroup)
  create_connection_group input =
      unless_empty (to_string input.name) "Name cannot be empty"
        (called (api.create_connection_group input))

  unfoldable pub update_connection_group : UpdateInput → Run W (Option ConnectionGroup)
  update_connection_group input = unless_empty (to_string input.id) "Id cannot be empty" (
      unless_empty (to_string input.if_match)
        "IfMatch cannot be empty: updates require the current ETag"
        (called (api.update_connection_group input)))

  unfoldable pub delete_connection_group_by_input : Option String → Option String → Run W Unit
  delete_connection_group_by_input id if_match = unless_empty (to_string id) "Id cannot be empty" (
      unless_empty (to_string if_match) "IfMatch cannot be empty: deletes require the current ETag"
        (called (api.delete_connection_group id if_match)))

  abbrev pub is_account_default : ConnectionGroup → RepositoryError
  is_account_default group = invalid_text (
      concat "connection group "
        (concat (to_string group.id) " is the account default and cannot be deleted"))

  -- the last part: the delete, with the version that was read or written
  abbrev pub delete_version : Option ConnectionGroup → Run W Unit
  delete_version none w = (got tt, w)
  delete_version (some group) w =
      gone_is_done (delete_connection_group_by_input group.id (some group.etag) w)

  abbrev pub disabling : ConnectionGroup → UpdateInput
  disabling group = record { id = group.id; if_match = some group.etag; enabled = some false }

  abbrev pub disable_and_delete : Option ConnectionGroup → Run W Unit
  disable_and_delete none w = (got tt, w)
  disable_and_delete (some group) w =
      if to_bool group.is_default
      then (failed (is_account_default group), w)
      else if to_bool group.enabled
      then and_then (update_connection_group (disabling group) w) delete_version
      else delete_version (some group) w

  abbrev pub after_get : Answer (Option ConnectionGroup) × W → Answer Unit × W
  after_get (got group, w) = disable_and_delete group w
  after_get (failed err, w) = if is_sentinel err_not_found err then (got tt, w) else (failed err, w)

  unfoldable pub delete_connection_group : String → Run W Unit
  delete_connection_group identifier w = after_get (get_connection_group identifier w)
