-- ===== src/CloudFront/Tenants.antt =====
-- service/cloudfront/distribution_tenant_repository.go: the tenants of a distribution. The calls of
-- the API are parameters; metrics and logs are left out. The certificates are read one tenant after
-- the other.
pub mod Store
pub mod Deletion
use awslib.CloudFront.Calls.{
  Call, answered, refused, Answer, got, failed, to_string, to_bool, answer_of, invalid_text,
  same_bool, Run, called, stopped, unless_empty, and_then, gone_is_done,
}
use awslib.CloudFront.{
  ApiError, RepositoryError, Sentinel, sentinel, invalid, err_not_found, classify_err, is_sentinel,
}
use awslib.Errors.{Error}
use awslib.Prelude.{
  ℕ, zero, suc, String, Bool, true, false, not, Option, none, some, List, [], ◌∷◌, ◌++◌, map, ◌==◌,
  string_eq, if◌then◌else◌,
}

-- cftypes.DistributionTenant and its ETag, as far as they are used here
pub record DistributionTenant : Type 0 where
  pub id : Option String
  pub enabled : Option Bool
  pub etag : String

pub record UpdateInput : Type 0 where
  pub id : Option String
  pub if_match : Option String
  pub enabled : Option Bool
  pub domains : List String

pub record CreateInput : Type 0 where
  pub distribution_id : Option String
  pub name : Option String
  pub domains : List String

-- The SDK's client and its paginator of summaries S, which is in the world; a certificate C. Calls
-- that answer a tenant may answer none. The query of a list is made into a paginator.
pub record TenantApi (W S C : Type 0) : Type 0 where
  pub get_distribution_tenant : String → W → Call (Option DistributionTenant) × W
  pub get_distribution_tenant_by_domain : String → W → Call (Option DistributionTenant) × W
  pub get_managed_certificate_details : String → W → Call (Option C) × W
  pub create_distribution_tenant : CreateInput → W → Call (Option DistributionTenant) × W
  pub update_distribution_tenant : UpdateInput → W → Call (Option DistributionTenant) × W
  pub delete_distribution_tenant : Option String → Option String → W → Call Unit × W
  pub new_paginator : (distribution_id : Option String) → W → W
  pub has_more_pages : W → Bool
  pub next_page : W → Call (List S) × W
  pub summary_id : S → String

abbrev pub is_enabled : DistributionTenant → Bool
is_enabled e = to_bool e.enabled

abbrev pub get_id : DistributionTenant → String
get_id e = to_string e.id

module _ {W S C : Type 0} (api : TenantApi W S C) where
  -- The loop over the pages; the number bounds the calls. What was listed is handed on with an error.
  unfoldable pub list_pages : ℕ → List S → W → Option ((List S × Option RepositoryError) × W)
  list_pages zero tenants w = if api.has_more_pages w then none else some ((tenants, none), w)
  list_pages (suc fuel) tenants w =
      if api.has_more_pages w
      then (elim (api.next_page w).0 [
        | refused err ↦ some ((tenants, some (classify_err err)), (api.next_page w).1)
        | answered page ↦ list_pages fuel (tenants ++ page) (api.next_page w).1
      ])
      else some ((tenants, none), w)

  unfoldable pub list_distribution_tenants_by_input :
      ℕ → Option String → W → Option ((List S × Option RepositoryError) × W)
  list_distribution_tenants_by_input fuel query w = list_pages fuel [] (api.new_paginator query w)

  unfoldable pub list_distribution_tenants_all :
      ℕ → W → Option ((List S × Option RepositoryError) × W)
  list_distribution_tenants_all fuel = list_distribution_tenants_by_input fuel none

  unfoldable pub list_distribution_tenants_by_distribution :
      ℕ → String → W → Option ((List S × Option RepositoryError) × W)
  list_distribution_tenants_by_distribution fuel distribution_id w =
      if distribution_id == ""
      then some (([], some (invalid_text "DistributionId cannot be empty")), w)
      else list_distribution_tenants_by_input fuel (some distribution_id) w

  unfoldable pub get_distribution_tenant_by_input :
      Option String → Run W (Option DistributionTenant)
  get_distribution_tenant_by_input identifier =
      unless_empty (to_string identifier) "Identifier cannot be empty"
        (called (api.get_distribution_tenant (to_string identifier)))

  unfoldable pub get_distribution_tenant : String → Run W (Option DistributionTenant)
  get_distribution_tenant identifier = get_distribution_tenant_by_input (some identifier)

  unfoldable pub get_distribution_tenant_by_domain : String → Run W (Option DistributionTenant)
  get_distribution_tenant_by_domain domain =
      unless_empty domain "Domain cannot be empty"
        (called (api.get_distribution_tenant_by_domain domain))

  unfoldable pub get_managed_certificate_details : String → Run W (Option C)
  get_managed_certificate_details identifier =
      unless_empty identifier "Identifier cannot be empty"
        (called (api.get_managed_certificate_details identifier))

  -- nil where the details cannot be read
  abbrev pub certificate_of : Answer (Option C) → Option C
  certificate_of (got details) = details
  certificate_of (failed err) = none

  unfoldable pub with_certificates : List S → W → List (S × Option C) × W
  with_certificates [] w = ([], w)
  with_certificates (t ∷ tenants) w =
      let (details, w') = get_managed_certificate_details (api.summary_id t) w in
      let (results, w'') = with_certificates tenants w' in
      ((t, certificate_of details) ∷ results, w'')

  abbrev pub listed :
      Option ((List S × Option RepositoryError) × W)
      → Option ((List (S × Option C) × Option RepositoryError) × W)
  listed none = none
  listed (some ((tenants, some err), w)) = some (([], some err), w)
  listed (some ((tenants, none), w)) =
      let (results, w') = with_certificates tenants w in some ((results, none), w')

  unfoldable pub list_distribution_tenants_with_certificates_by_input :
      ℕ → Option String → W → Option ((List (S × Option C) × Option RepositoryError) × W)
  list_distribution_tenants_with_certificates_by_input fuel query w =
      listed (list_distribution_tenants_by_input fuel query w)

  abbrev pub need_domains : {A : Type 0} → List String → Run W A → Run W A
  need_domains [] run =
      stopped (invalid_text "Domains cannot be empty: a tenant must serve at least one domain")
  need_domains (d ∷ domains) run = run

  unfoldable pub create_distribution_tenant : CreateInput → Run W (Option DistributionTenant)
  create_distribution_tenant input =
      unless_empty (to_string input.distribution_id) "DistributionId cannot be empty" (
        unless_empty (to_string input.name) "Name cannot be empty"
          (need_domains input.domains (called (api.create_distribution_tenant input))))

  unfoldable pub update_distribution_tenant : UpdateInput → Run W (Option DistributionTenant)
  update_distribution_tenant input = unless_empty (to_string input.id) "Id cannot be empty" (
      unless_empty (to_string input.if_match)
        "IfMatch cannot be empty: updates require the current ETag"
        (called (api.update_distribution_tenant input)))

  -- the rest of SetDistributionTenantEnabled, after the tenant is read
  abbrev pub set_enabled : Bool → Option DistributionTenant → Run W (Option DistributionTenant)
  set_enabled enabled none w = (failed (sentinel err_not_found), w)
  set_enabled enabled (some tenant) w =
      if same_bool (is_enabled tenant) enabled
      then (got (some tenant), w)
      else update_distribution_tenant
          (record {
            id = tenant.id;
            if_match = some tenant.etag;
            enabled = some enabled;
            domains = [];
          })
          w

  unfoldable pub set_distribution_tenant_enabled : String → Bool → Run W (Option DistributionTenant)
  set_distribution_tenant_enabled identifier enabled w =
      and_then (get_distribution_tenant identifier w) (set_enabled enabled)

  abbrev pub set_domains :
      List String → Option DistributionTenant → Run W (Option DistributionTenant)
  set_domains domains none = stopped (sentinel err_not_found)
  set_domains domains (some tenant) =
      update_distribution_tenant
        (record { id = tenant.id; if_match = some tenant.etag; enabled = none; domains = domains })

  unfoldable pub update_distribution_tenant_domains :
      String → List String → Run W (Option DistributionTenant)
  update_distribution_tenant_domains identifier domains =
      need_domains domains
        (λ w. and_then (get_distribution_tenant identifier w) (set_domains domains))

  unfoldable pub delete_distribution_tenant_by_input : Option String → Option String → Run W Unit
  delete_distribution_tenant_by_input id if_match =
      unless_empty (to_string id) "Id cannot be empty" (
        unless_empty (to_string if_match)
          "IfMatch cannot be empty: deletes require the current ETag"
          (called (api.delete_distribution_tenant id if_match)))

  -- the last part: the delete, with the version that was read or written
  abbrev pub delete_version : Option DistributionTenant → Run W Unit
  delete_version none w = (got tt, w)
  delete_version (some tenant) w =
      gone_is_done (delete_distribution_tenant_by_input tenant.id (some tenant.etag) w)

  abbrev pub disable_and_delete : Option DistributionTenant → Run W Unit
  disable_and_delete none w = (got tt, w)
  disable_and_delete (some tenant) w =
      if is_enabled tenant
      then and_then (set_distribution_tenant_enabled (get_id tenant) false w) delete_version
      else delete_version (some tenant) w

  abbrev pub after_get : Answer (Option DistributionTenant) × W → Answer Unit × W
  after_get (got tenant, w) = disable_and_delete tenant w
  after_get (failed err, w) = if is_sentinel err_not_found err then (got tt, w) else (failed err, w)

  unfoldable pub delete_distribution_tenant : String → Run W Unit
  delete_distribution_tenant identifier w = after_get (get_distribution_tenant identifier w)
