-- ===== src/CloudFront/Tenants/Deletion.antt =====
-- service/cloudfront/distribution_tenant_repository.go: deleting a tenant, against the API's own
-- store of tenants.
use awslib.CloudFront.{
  ApiError, RepositoryError, classified, err_not_disabled, classify_err, is_sentinel,
}
use awslib.CloudFront.Calls.{
  refused, called, Answer, got, failed, to_string, answer_of, and_then, gone_is_done,
}
use awslib.CloudFront.Tenants.{
  DistributionTenant, TenantApi, is_enabled, get_id, get_distribution_tenant_by_input,
  get_distribution_tenant, update_distribution_tenant, set_enabled, set_distribution_tenant_enabled,
  delete_distribution_tenant_by_input, delete_version, after_get, delete_distribution_tenant,
}
use awslib.Prelude.{
  String, ◌≡◌, refl, ◌∙◌, ap, Bool, true, false, Option, none, some, [], ◌⊎◌, ◌==◌, string_eq,
  Bool-cases, Option-cases, inl, inr,
}
use awslib.CloudFront.Tenants.Store.{IsStore, not_found-classify_err, not_disabled-classify_err}

module _ {W S C : Type 0} (api : TenantApi W S C)
    (tenant_of : W → String → Option DistributionTenant) (settled : W → String → Bool)
    (store : IsStore api tenant_of settled) where
  get_found :
      (x : String) (w : W) (t : DistributionTenant)
      → (x == "") ≡ false
      → tenant_of w x ≡ some t
      → get_distribution_tenant api x w ≡ (got (some t), w)
  unfolding get_distribution_tenant get_distribution_tenant_by_input
  get_found x w t some_x h =
      rw (some_x, get_distribution_tenant, get_distribution_tenant_by_input)
        (ap (λ a. (answer_of a.0, a.1)) (store.found w x t h))

  get_refused :
      (x : String) (w : W) (err : ApiError)
      → (x == "") ≡ false
      → api.get_distribution_tenant x w ≡ (refused err, w)
      → get_distribution_tenant api x w ≡ (failed (classify_err err), w)
  unfolding get_distribution_tenant get_distribution_tenant_by_input
  get_refused x w err some_x h =
      rw (some_x, get_distribution_tenant, get_distribution_tenant_by_input)
        (ap (λ a. (answer_of a.0, a.1)) h)

  -- The tenant is not there any more, and no error is answered.
  abbrev pub IsDone : String → Answer Unit × W → Type 0
  IsDone x a = (w' : W) × (a ≡ (got tt, w')) × (tenant_of w' x ≡ none)

  -- The tenant is there, disabled, and the error is ErrNotDisabled.
  abbrev pub IsPending : String → Answer Unit × W → Type 0
  IsPending x a =
      (err : RepositoryError) × (w' : W) × (t : DistributionTenant) × (a ≡ (failed err, w'))
      × (is_sentinel err_not_disabled err ≡ true)
      × (tenant_of w' x ≡ some t)
      × (is_enabled t ≡ false)

  delete_by_input :
      (id : String) (t : DistributionTenant) (w : W)
      → t.id ≡ some id
      → (id == "") ≡ false
      → (t.etag == "") ≡ false
      → delete_version api (some t) w
        ≡ gone_is_done (called (api.delete_distribution_tenant (some id) (some t.etag)) w)
  unfolding delete_distribution_tenant_by_input
  delete_by_input id t w name some_id etag =
      ap (λ x. gone_is_done (delete_distribution_tenant_by_input api x (some t.etag) w)) name
      ∙ rw (some_id, etag, delete_distribution_tenant_by_input) refl

  delete_version-IsDone :
      (x id : String) (w : W) (t : DistributionTenant)
      → tenant_of w x ≡ some t
      → t.id ≡ some id
      → is_enabled t ≡ false
      → settled w id ≡ true
      → IsDone x (delete_version api (some t) w)
  delete_version-IsDone x id w t h name off now =
      let (id', name', some_id, etag, own) = store.named w x t h in
      let same : id' ≡ id = cc in
      let (w', done, gone) = store.deleted w x id t h name off now in
      (
        w',
        delete_by_input id t w name (rw (← same) some_id) etag
            ∙ ap (λ a. gone_is_done (answer_of a.0, a.1)) done,
        gone,
      )

  delete_version-IsPending :
      (x id : String) (w : W) (t : DistributionTenant)
      → tenant_of w x ≡ some t
      → t.id ≡ some id
      → is_enabled t ≡ false
      → settled w id ≡ false
      → IsPending x (delete_version api (some t) w)
  delete_version-IsPending x id w t h name off now =
      let (id', name', some_id, etag, own) = store.named w x t h in
      let same : id' ≡ id = cc in
      let (err, w', refusal, not_disabled, there) = store.unsettled w x id t h name off now in
      (
        classified err_not_disabled err,
        w',
        t,
        delete_by_input id t w name (rw (← same) some_id) etag
            ∙ ap (λ a. gone_is_done (answer_of a.0, a.1)) refusal
            ∙ ap (λ e. gone_is_done (failed e, w')) (not_disabled-classify_err err not_disabled),
        refl,
        there,
        off,
      )

  delete_version_disabled :
      (x : String) (w : W) (t : DistributionTenant)
      → tenant_of w x ≡ some t
      → is_enabled t ≡ false
      → IsDone x (delete_version api (some t) w) ⊎ IsPending x (delete_version api (some t) w)
  delete_version_disabled x w t h off =
      let (id, name, some_id, etag, own) = store.named w x t h in
      elim (Bool-cases (settled w id)) [
        | inl now ↦ inl (delete_version-IsDone x id w t h name off now)
        | inr later ↦ inr (delete_version-IsPending x id w t h name off later)
      ]

  disabled :
      (x : String) (w : W) (t : DistributionTenant)
      → tenant_of w x ≡ some t
      → is_enabled t ≡ true
      → (t' : DistributionTenant) × (w' : W) × (set_distribution_tenant_enabled api
            (get_id t)
            false
            w
          ≡ (got (some t'), w'))
        × (tenant_of w' x ≡ some t')
        × (is_enabled t' ≡ false)
  unfolding set_distribution_tenant_enabled update_distribution_tenant
  disabled x w t h on =
      let (id, name, some_id, etag, own) = store.named w x t h in
      let (t', w', done, now, off) = store.updated w x id t false h name in
      (
        t',
        w',
        ap (λ x. set_distribution_tenant_enabled api (to_string x) false w) name
            ∙ ap (λ a. and_then a (set_enabled api false)) (get_found id w t some_id own)
            ∙ rw (on) (
                ap
                  (λ x.
                    update_distribution_tenant api
                      (record {
                        id = x;
                        if_match = some t.etag;
                        enabled = some false;
                        domains = [];
                      })
                      w)
                  name
                ∙ rw (some_id, etag, update_distribution_tenant)
                    (ap (λ a. (answer_of a.0, a.1)) done)),
        now,
        off,
      )

  -- Where the API keeps its promises, DeleteDistributionTenant of an identifier that is not empty
  -- answers no error, and no tenant has the identifier afterwards, or it answers ErrNotDisabled, and
  -- the tenant is there and disabled; whether it was enabled, disabled or not there at all.
  pub delete_distribution_tenant-IsStore :
      (identifier : String) (w : W)
      → (identifier == "") ≡ false
      → IsDone identifier (delete_distribution_tenant api identifier w)
        ⊎ IsPending identifier (delete_distribution_tenant api identifier w)
  unfolding delete_distribution_tenant
  delete_distribution_tenant-IsStore x w some_x = elim (Option-cases (tenant_of w x)) [
    | inl missing ↦
        let (err, refusal, not_found) = store.absent w x missing in
        inl (
          w,
          ap (after_get api) (get_refused x w err some_x refusal)
              ∙ rw (not_found-classify_err err not_found) refl,
          missing,
        )
    | inr (t, h) ↦
        let got_it = ap (after_get api) (get_found x w t some_x h) in
        elim (Bool-cases (is_enabled t)) [
          | inl on ↦
              let (t', w', set, now, off) = disabled x w t h on in
              let steps : delete_distribution_tenant api x w ≡ delete_version api (some t') w' =
                got_it ∙ rw (on) (ap (λ a. and_then a (delete_version api)) set) in
              rw steps (delete_version_disabled x w' t' now off)
          | inr off ↦
              let steps : delete_distribution_tenant api x w ≡ delete_version api (some t) w =
                got_it ∙ rw (off) refl in
              rw steps (delete_version_disabled x w t h off)
        ]
  ]

  -- Where the API keeps its promises, a tenant that is disabled, and whose updates have settled, is
  -- deleted by a call with any of its identifiers that is not empty, and no error is answered.
  pub delete_distribution_tenant_settled :
      (identifier id : String) (w : W) (t : DistributionTenant)
      → (identifier == "") ≡ false
      → tenant_of w identifier ≡ some t
      → t.id ≡ some id
      → is_enabled t ≡ false
      → settled w id ≡ true
      → IsDone identifier (delete_distribution_tenant api identifier w)
  unfolding delete_distribution_tenant
  delete_distribution_tenant_settled x id w t some_x h name off now =
      let steps : delete_distribution_tenant api x w ≡ delete_version api (some t) w =
        ap (after_get api) (get_found x w t some_x h) ∙ rw (off) refl in
      rw steps (delete_version-IsDone x id w t h name off now)
