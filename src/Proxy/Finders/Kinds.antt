-- ===== src/Proxy/Finders/Kinds.antt =====
-- The types of the resources that a finder answers.
use awslib.Cache.{DataCache}
use awslib.Proxy.Finders.{Repositories, Surroundings, list_with, find}
use awslib.Proxy.Finders.Typed.{records_of, find_route53_resource_records}
use awslib.Errors.{Error}
use awslib.Service.Cfg.{Kind, text, route53_hosted_zone, route53_resource_record}
use awslib.Prelude.{
  String, ◌≡◌, Option, List, [], ◌∷◌, map, All, All-append, Option-cases, inl, inr,
}

module _ {C W H R : Type 0} {Item : Kind → Type 0} (sdk : Kind → String)
    (e : Surroundings C W H R Item) (type_of : R → String)
    (typed : (k : Kind) (x : Item k) → type_of (e.cast k x) ≡ text sdk k) where
  -- Every one of the resources is of the type.
  abbrev pub AreOf : String → List R → Type 0
  AreOf t = All (λ r. type_of r ≡ t)

  map-AreOf : (k : Kind) (xs : List (Item k)) → AreOf (text sdk k) (map (e.cast k) xs)
  map-AreOf k [] = tt
  map-AreOf k (x ∷ xs) = (typed k x, map-AreOf k xs)

  pub find-AreOf :
      (k : Kind) (method : String) (params : List awslib.Cache.Key.Value)
      (list : W → (List (Item k) × Option Error) × W) (client : C) (dc : Option (DataCache H))
      (w : W)
      → AreOf (text sdk k) ((find e k method params list client dc w).0).0
  unfolding find
  find-AreOf k method params list client dc w = map-AreOf k _

  module _ (repos : Repositories C W Item) where
    records_of-AreOf :
        (zones : List (Item route53_hosted_zone)) (all : List R) (client : C)
        (dc : Option (DataCache H)) (w : W)
        → AreOf (text sdk route53_resource_record) all
        → AreOf (text sdk route53_resource_record) ((records_of e repos zones all client dc w).0).0
    unfolding records_of
    records_of-AreOf [] all client dc w h = h
    records_of-AreOf (hz ∷ zones) all client dc w h =
        let turn =
          list_with e route53_resource_record "ListResourceRecords" (e.shown_hosted_zone hz ∷ [])
            (repos.route53_list_resource_records hz client) client dc w in
        elim (Option-cases (turn.0).1) [
          | inl done ↦
              rw (done, records_of)
                (records_of-AreOf zones _ client _ _
                  (All-append _ all _ h (map-AreOf route53_resource_record (turn.0).0)))
          | inr (failed, err) ↦ rw (err, records_of) tt
        ]

    pub find_route53_resource_records-AreOf :
        (client : C) (dc : Option (DataCache H)) (w : W)
        → AreOf
            (text sdk route53_resource_record)
            ((find_route53_resource_records e repos client dc w).0).0
    unfolding find_route53_resource_records
    find_route53_resource_records-AreOf client dc w =
        let turn =
          list_with e route53_hosted_zone "ListHostedZonesAll" []
            (repos.route53_list_hosted_zones_all client) client dc w in
        elim (Option-cases (turn.0).1) [
          | inl done ↦
              rw (done, find_route53_resource_records)
                (records_of-AreOf (turn.0).0 [] client _ _ tt)
          | inr (failed, err) ↦ rw (err, find_route53_resource_records) tt
        ]
