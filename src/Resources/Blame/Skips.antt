-- ===== src/Resources/Blame/Skips.antt =====
-- resources/blame.go: when LookupAll answers no error.
use awslib.CloudTrail.{LookupAttributeKeys, LookupEventsInput}
use awslib.Dict
use awslib.Dict.{Dict}
use awslib.Errors.{Error, Result, ok, fail}
use awslib.Gocollection.{Gocollection}
use awslib.Resources.Blame.{
  AbstractResource, Event, ResourceEvents, AwsBlame, unlisted, too_old, no_events, events_of,
  lookup, lookup_from, lookup_all, get_id_or_arn,
}
use awslib.Prelude.Int.{ℤ}
use awslib.Prelude.{
  string_eq, String, ◌≡◌, ◌↔◌, refl, sym, ◌∙◌, ap, Bool, true, false, ◌||◌, Option, none, some,
  List, [], ◌∷◌, All, arith, Bool-cases, inl, inr,
}

module _ {C W : Type 0} (clock : W → ℤ) (get_client : String → String → W → Result C × W)
    (list_events_by_input : C → LookupEventsInput → W → (List Event × Option Error) × W)
    (new_error : Option Error → Error) (keys : LookupAttributeKeys) (g : Gocollection)
    (b : AwsBlame) where
  -- Lookup leaves the resource out: its type is not listed, or it is too old.
  abbrev pub skipped : ℤ → AbstractResource → Bool
  skipped now r = unlisted g b r || too_old b now r

  abbrev look : AbstractResource → W → (ResourceEvents × Option Error) × W
  look = lookup clock get_client list_events_by_input new_error keys g b

  lookup-skipped :
      (r : AbstractResource) (w : W)
      → skipped (clock w) r ≡ true
      → look r w ≡ ((no_events r, none), w)
  unfolding lookup
  lookup-skipped r w h = elim (Bool-cases (unlisted g b r)) [
    | inl out ↦ rw (out, lookup) refl
    | inr within ↦
        let old : too_old b (clock w) r ≡ true = ground (arith, h) in rw (within, old, lookup) refl
  ]

  events_of_fails :
      (r : AbstractResource) (a : Result C × W)
      → (e : Error) × ((events_of clock get_client list_events_by_input new_error keys g b r a).0.1
          ≡ some e)
  events_of_fails r (fail err, w) = (_, refl)
  events_of_fails r (ok client, w) = (_, refl)

  lookup-some :
      (r : AbstractResource) (w : W)
      → skipped (clock w) r ≡ false
      → (e : Error) × ((look r w).0.1 ≡ some e)
  unfolding lookup
  lookup-some r w h =
      let within : unlisted g b r ≡ false = ground (arith, h) in
      let young : too_old b (clock w) r ≡ false = ground (arith, h) in
      let (e, fails) = events_of_fails r (get_client r.account_id r.region w) in
      (e, rw (within, young, lookup) fails)

  abbrev from :
      Dict String ResourceEvents
      → List AbstractResource
      → W
      → (Dict String ResourceEvents × Option Error) × W
  from = lookup_from clock get_client list_events_by_input new_error keys g b

  -- the rest of a turn of the loop
  abbrev turned :
      Dict String ResourceEvents
      → AbstractResource
      → List AbstractResource
      → (ResourceEvents × Option Error) × W
      → (Dict String ResourceEvents × Option Error) × W
  turned resources r items ((events, err), w) = elim err [
    | some failed ↦ ((resources, some failed), w)
    | none ↦ from (Dict.insert (get_id_or_arn r) events resources) items w
  ]

  lookup_from-skipped :
      (resources : Dict String ResourceEvents) (r : AbstractResource)
      (items : List AbstractResource) (w : W)
      → skipped (clock w) r ≡ true
      → from resources (r ∷ items) w
        ≡ from (Dict.insert (get_id_or_arn r) (no_events r) resources) items w
  unfolding lookup_from
  lookup_from-skipped resources r items w skip =
      ap (turned resources r items) (lookup-skipped r w skip)

  lookup_from-some :
      (resources : Dict String ResourceEvents) (r : AbstractResource)
      (items : List AbstractResource) (w : W)
      → skipped (clock w) r ≡ false
      → (e : Error) × ((from resources (r ∷ items) w).0.1 ≡ some e)
  unfolding lookup_from
  lookup_from-some resources r items w asked =
      let (e, fails) = lookup-some r w asked in
      (e, ap (λ err. (turned resources r items (((look r w).0.0, err), (look r w).1)).0.1) fails)

  none_is_some : (e : Error) → Path (Option Error) none (some e) → ⊥
  none_is_some e h = cc

  lookup_from-none :
      (resources : Dict String ResourceEvents) (items : List AbstractResource) (w : W)
      → (from resources items w).0.1 ≡ none
      → All (λ r. skipped (clock w) r ≡ true) items
  lookup_from-none resources [] w h = tt
  lookup_from-none resources (r ∷ items) w h = elim (Bool-cases (skipped (clock w) r)) [
    | inl skip ↦ (
      skip,
      lookup_from-none (Dict.insert (get_id_or_arn r) (no_events r) resources) items w
          (ap (λ a. a.0.1) (sym (lookup_from-skipped resources r items w skip)) ∙ h),
    )
    | inr asked ↦
        let (e, fails) = lookup_from-some resources r items w asked in
        absurd (none_is_some e (sym h ∙ fails))
  ]

  none-lookup_from :
      (resources : Dict String ResourceEvents) (items : List AbstractResource) (w : W)
      → All (λ r. skipped (clock w) r ≡ true) items
      → (from resources items w).0.1 ≡ none
  unfolding lookup_from
  none-lookup_from resources [] w h = refl
  none-lookup_from resources (r ∷ items) w h =
      ap (λ a. a.0.1) (lookup_from-skipped resources r items w h.0)
      ∙ none-lookup_from (Dict.insert (get_id_or_arn r) (no_events r) resources) items w h.1

  -- LookupAll answers no error exactly when it leaves every resource out, because its type is not
  -- listed or it is too old: one whose events are looked up makes it stop with an error, also if the
  -- look-up succeeds.
  pub lookup_all_iff :
      (items : List AbstractResource) (w : W)
      → ((lookup_all clock get_client list_events_by_input new_error keys g b items w).0.1 ≡ none)
        ↔ All (λ r. skipped (clock w) r ≡ true) items
  unfolding lookup_all
  lookup_all_iff items w = (lookup_from-none [] items w, none-lookup_from [] items w)
