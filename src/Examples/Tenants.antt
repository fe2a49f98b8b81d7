-- ===== src/Examples/Tenants.antt =====
-- Runs of the deletion of a tenant, at a store of one tenant that is known by its ID, its ARN and its
-- name. An update has not settled when it is answered.
use awslib.CloudFront.{ApiError, entity_not_found, resource_not_disabled}
use awslib.CloudFront.Calls.{Call, answered, refused, to_bool}
use awslib.CloudFront.Tenants.{
  DistributionTenant, TenantApi, is_enabled, delete_distribution_tenant,
}
use awslib.CloudFront.Tenants.Deletion.{
  IsDone, IsPending, delete_distribution_tenant-IsStore, delete_distribution_tenant_settled,
}
use awslib.CloudFront.Tenants.Store.{IsStore, enabling}
use awslib.Prelude.{
  String, ◌≡◌, refl, sym, ◌∙◌, ap, Bool, true, false, ◌||◌, Option, none, some, [], ◌∷◌, ◌==◌, ◌⊎◌,
  string_eq, Bool-cases, inl, inr, if◌then◌else◌,
}

data World : Type 0 where
  gone : World
  here : (enabled settled : Bool) → World

abbrev known : String → Bool
known x = x == "dt" || (x == "arn:dt" || x == "shop")

abbrev tenant : Bool → DistributionTenant
tenant b = record { id = some "dt"; enabled = some b; etag = "v1" }

abbrev shape : World → Option DistributionTenant
shape gone = none
shape (here enabled settled) = some (tenant enabled)

abbrev tenant_of : World → String → Option DistributionTenant
tenant_of w x = if known x then shape w else none

abbrev settled_now : World → Bool
settled_now gone = true
settled_now (here enabled settled) = settled

abbrev settled : World → String → Bool
settled w id = settled_now w

abbrev refusal : World → ApiError
refusal gone = record { text = record { message = "not found" }; shapes = entity_not_found ∷ [] }
refusal (here enabled settled) = record {
  text = record { message = "not disabled" };
  shapes = resource_not_disabled ∷ [];
}

abbrev shown : Option DistributionTenant → World → Call (Option DistributionTenant) × World
shown none w = (refused (refusal gone), w)
shown (some t) w = (answered (some t), w)

abbrev after_update : World → Bool → World
after_update gone b = gone
after_update (here enabled settled) b = here b false

abbrev remove : World → Call Unit × World
remove (here false true) = (answered tt, gone)
remove w = (refused (refusal w), w)

abbrev api : TenantApi World String String
api = record {
  get_distribution_tenant = λ id w. shown (tenant_of w id) w;
  get_distribution_tenant_by_domain = λ domain w. (answered none, w);
  get_managed_certificate_details = λ id w. (answered none, w);
  create_distribution_tenant = λ input w. (answered none, w);
  update_distribution_tenant = λ input w. (
    answered (shape (after_update w (to_bool input.enabled))),
    after_update w (to_bool input.enabled),
  );
  delete_distribution_tenant = λ id if_match w. remove w;
  new_paginator = λ query w. w;
  has_more_pages = λ w. false;
  next_page = λ w. (answered [], w);
  summary_id = λ s. s;
}

none_is_some : {t : DistributionTenant} → Path (Option DistributionTenant) none (some t) → ⊥
none_is_some h = cc

true_is_false : true ≡ false → ⊥
true_is_false h = cc

some_inj : {t u : DistributionTenant} → Path (Option DistributionTenant) (some t) (some u) → t ≡ u
some_inj h = cc

known-shape :
    (w : World) (x : String) (t : DistributionTenant)
    → tenant_of w x ≡ some t
    → (known x ≡ true) × (shape w ≡ some t)
known-shape w x t h = elim (Bool-cases (known x)) [
  | inl listed ↦ (listed, rw listed at h)
  | inr other ↦ absurd (none_is_some (rw other at h))
]

tenant_of-known : (w : World) (x : String) → known x ≡ true → tenant_of w x ≡ shape w
tenant_of-known w x listed = rw listed refl

named :
    (w : World) (x : String) (t : DistributionTenant)
    → tenant_of w x ≡ some t
    → (id : String) × (t.id ≡ some id)
      × ((id == "") ≡ false)
      × ((t.etag == "") ≡ false)
      × (tenant_of w id ≡ some t)
named gone x t h = absurd (none_is_some ((known-shape gone x t h).1))
named (here enabled settled) x t h =
    let e : tenant enabled ≡ t = some_inj ((known-shape (here enabled settled) x t h).1) in
    (
      "dt",
      ap (λ u. u.id) (sym e),
      refl,
      ap (λ u. u.etag == "") (sym e),
      (known-shape (here enabled settled) x t h).1,
    )

updated :
    (w : World) (x id : String) (t : DistributionTenant) (b : Bool)
    → tenant_of w x ≡ some t
    → t.id ≡ some id
    → (t' : DistributionTenant) × (w' : World) × (api.update_distribution_tenant
          (enabling id t.etag b)
          w
        ≡ (answered (some t'), w'))
      × (tenant_of w' x ≡ some t')
      × (is_enabled t' ≡ b)
updated gone x id t b h name = absurd (none_is_some ((known-shape gone x t h).1))
updated (here enabled settled) x id t b h name = (
  tenant b,
  here b false,
  refl,
  tenant_of-known (here b false) x ((known-shape (here enabled settled) x t h).0),
  refl,
)

deleted :
    (w : World) (x id : String) (t : DistributionTenant)
    → tenant_of w x ≡ some t
    → t.id ≡ some id
    → is_enabled t ≡ false
    → settled w id ≡ true
    → (w' : World) × (api.delete_distribution_tenant (some id) (some t.etag) w ≡ (answered tt, w'))
      × (tenant_of w' x ≡ none)
deleted gone x id t h name off now = absurd (none_is_some ((known-shape gone x t h).1))
deleted (here false true) x id t h name off now =
    (gone, refl, tenant_of-known gone x ((known-shape (here false true) x t h).0))
deleted (here true settled) x id t h name off now =
    let e : tenant true ≡ t = some_inj ((known-shape (here true settled) x t h).1) in
    absurd (true_is_false (ap is_enabled e ∙ off))
deleted (here false false) x id t h name off now = absurd (true_is_false (sym now))

unsettled :
    (w : World) (x id : String) (t : DistributionTenant)
    → tenant_of w x ≡ some t
    → t.id ≡ some id
    → is_enabled t ≡ false
    → settled w id ≡ false
    → (err : ApiError) × (w' : World) × (api.delete_distribution_tenant (some id) (some t.etag) w
        ≡ (refused err, w'))
      × (err.shapes ≡ resource_not_disabled ∷ [])
      × (tenant_of w' x ≡ some t)
unsettled gone x id t h name off now = absurd (true_is_false now)
unsettled (here enabled true) x id t h name off now = absurd (true_is_false now)
unsettled (here true false) x id t h name off now =
    let e : tenant true ≡ t = some_inj ((known-shape (here true false) x t h).1) in
    absurd (true_is_false (ap is_enabled e ∙ off))
unsettled (here false false) x id t h name off now =
    (refusal (here false false), here false false, refl, refl, h)

store : IsStore api tenant_of settled
store = record {
  named = named;
  found = λ w x t h. ap (λ o. shown o w) h;
  absent = λ w x h. (refusal gone, ap (λ o. shown o w) h, refl);
  updated = updated;
  deleted = deleted;
  unsettled = unsettled;
}

-- by its ARN, while it is enabled
delete_distribution_tenant-IsStore_example :
    IsDone api tenant_of settled store "arn:dt"
      (delete_distribution_tenant api "arn:dt" (here true true))
    ⊎ IsPending api tenant_of settled store "arn:dt"
        (delete_distribution_tenant api "arn:dt" (here true true))
delete_distribution_tenant-IsStore_example =
    delete_distribution_tenant-IsStore api tenant_of settled store "arn:dt" (here true true) refl

-- by its name, once the update has settled
delete_distribution_tenant_settled_example :
    IsDone api tenant_of settled store "shop"
      (delete_distribution_tenant api "shop" (here false true))
delete_distribution_tenant_settled_example =
    delete_distribution_tenant_settled api tenant_of settled store "shop" "dt" (here false true)
      (tenant false) refl refl refl refl refl
