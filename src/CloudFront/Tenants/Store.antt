-- ===== src/CloudFront/Tenants/Store.antt =====
-- service/cloudfront/distribution_tenant_repository.go: what the API promises of its own store of
-- tenants, and how its refusals are classified.
use awslib.CloudFront.{
  ApiError, err_not_found, resource_not_disabled, classified, err_not_disabled, matches,
  match_sentinel, classify_err, is_sentinel,
}
use awslib.CloudFront.Calls.{answered, refused}
use awslib.CloudFront.Tenants.{DistributionTenant, UpdateInput, TenantApi, is_enabled}
use awslib.Prelude.{
  String, ◌≡◌, refl, Bool, true, false, Option, none, some, [], ◌∷◌, ◌==◌, string_eq,
}

-- the update that only enables or disables
abbrev pub enabling : String → String → Bool → UpdateInput
enabling id etag b = record { id = some id; if_match = some etag; enabled = some b; domains = [] }

-- What the API promises of its store, where nothing else writes to it. `tenant_of` is the tenant that
-- an identifier is of: its ARN, its ID or its name. A read answers the tenant or that there is none. An
-- update that names the stored version is stored at once, but takes effect later: a delete of a
-- disabled tenant is carried out if the update has settled, and is refused as not disabled if not.
pub record IsStore {W S C : Type 0} (api : TenantApi W S C)
    (tenant_of : W → String → Option DistributionTenant) (settled : W → String → Bool)
    : Type 0 where
  pub named :
      (w : W) (identifier : String) (t : DistributionTenant)
      → tenant_of w identifier ≡ some t
      → (id : String) × (t.id ≡ some id)
        × ((id == "") ≡ false)
        × ((t.etag == "") ≡ false)
        × (tenant_of w id ≡ some t)
  pub found :
      (w : W) (identifier : String) (t : DistributionTenant)
      → tenant_of w identifier ≡ some t
      → api.get_distribution_tenant identifier w ≡ (answered (some t), w)
  pub absent :
      (w : W) (identifier : String)
      → tenant_of w identifier ≡ none
      → (err : ApiError) × (api.get_distribution_tenant identifier w ≡ (refused err, w))
        × (matches err_not_found err.shapes ≡ true)
  pub updated :
      (w : W) (identifier id : String) (t : DistributionTenant) (b : Bool)
      → tenant_of w identifier ≡ some t
      → t.id ≡ some id
      → (t' : DistributionTenant) × (w' : W) × (api.update_distribution_tenant
            (enabling id t.etag b)
            w
          ≡ (answered (some t'), w'))
        × (tenant_of w' identifier ≡ some t')
        × (is_enabled t' ≡ b)
  pub deleted :
      (w : W) (identifier id : String) (t : DistributionTenant)
      → tenant_of w identifier ≡ some t
      → t.id ≡ some id
      → is_enabled t ≡ false
      → settled w id ≡ true
      → (w' : W) × (api.delete_distribution_tenant (some id) (some t.etag) w ≡ (answered tt, w'))
        × (tenant_of w' identifier ≡ none)
  pub unsettled :
      (w : W) (identifier id : String) (t : DistributionTenant)
      → tenant_of w identifier ≡ some t
      → t.id ≡ some id
      → is_enabled t ≡ false
      → settled w id ≡ false
      → (err : ApiError) × (w' : W) × (api.delete_distribution_tenant (some id) (some t.etag) w
          ≡ (refused err, w'))
        × (err.shapes ≡ resource_not_disabled ∷ [])
        × (tenant_of w' identifier ≡ some t)

pub not_found-classify_err :
    (err : ApiError)
    → matches err_not_found err.shapes ≡ true
    → is_sentinel err_not_found (classify_err err) ≡ true
unfolding classify_err match_sentinel
not_found-classify_err err h = rw (h, classify_err, match_sentinel) refl

not_disabled-match_sentinel :
    (err : ApiError)
    → err.shapes ≡ resource_not_disabled ∷ []
    → match_sentinel err ≡ some err_not_disabled
unfolding match_sentinel
not_disabled-match_sentinel err h = rw (h, match_sentinel) refl

pub not_disabled-classify_err :
    (err : ApiError)
    → err.shapes ≡ resource_not_disabled ∷ []
    → classify_err err ≡ classified err_not_disabled err
unfolding classify_err
not_disabled-classify_err err h = rw (not_disabled-match_sentinel err h, classify_err) refl
