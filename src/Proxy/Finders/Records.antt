-- ===== src/Proxy/Finders/Records.antt =====
-- What FindRoute53ResourceRecords answers.
use awslib.Errors.{Error}
use awslib.Cache.{DataCache}
use awslib.Proxy.Finders.{Repositories, Surroundings, list_with}
use awslib.Proxy.Finders.Typed.{records_of, find_route53_resource_records}
use awslib.Service.Cfg.{Kind, route53_hosted_zone, route53_resource_record}
use mathlib.Core.List.{append_assoc}
use awslib.Prelude.{◌≡◌, sym, ◌∙◌, ap, Option, none, some, List, [], ◌∷◌, ◌++◌, map, append_nil}

module _ {C W H R : Type 0} {Item : Kind → Type 0} (e : Surroundings C W H R Item)
    (repos : Repositories C W Item) (client : C) where
  -- The zones, one after the other, answer their records: the resources, and the world after it.
  pub data Lists : List (Item route53_hosted_zone) → W → List R → W → Type 0 where
    no_zone : (w : W) → Lists [] w [] w
    next_zone :
        (hz : Item route53_hosted_zone) (zones : List (Item route53_hosted_zone))
        (records : List (Item route53_resource_record)) (rs : List R) (w w' w'' : W)
        → repos.route53_list_resource_records hz client w ≡ ((records, none), w')
        → Lists zones w' rs w''
        → Lists (hz ∷ zones) w (map (e.cast route53_resource_record) records ++ rs) w''

  -- the turn of the loop, after the zone's records are listed
  abbrev after_zone :
      List (Item route53_hosted_zone)
      → List R
      → (List (Item route53_resource_record) × Option Error) × W
      → (List R × Option Error) × Option (DataCache H) × W
  after_zone zones all ((records, err), w) = elim err [
    | some failed ↦ (([], some failed), none, w)
    | none ↦
        records_of e repos zones (all ++ map (e.cast route53_resource_record) records) client none w
  ]

  -- the rest of the function, after the zones are listed
  abbrev after_zones :
      (List (Item route53_hosted_zone) × Option Error) × W
      → (List R × Option Error) × Option (DataCache H) × W
  after_zones ((zones, err), w) = elim err [
    | some failed ↦ (([], some failed), none, w)
    | none ↦ records_of e repos zones [] client none w
  ]

  records_of-Lists :
      (zones : List (Item route53_hosted_zone)) (all rs : List R) (w w' : W)
      → Lists zones w rs w'
      → records_of e repos zones all client none w ≡ ((all ++ rs, none), none, w')
  unfolding records_of list_with
  records_of-Lists _ all _ w _ (no_zone _) = ap (λ xs. ((xs, none), none, w)) (sym (append_nil all))
  records_of-Lists _ all _ w w'' (next_zone hz zones records rs _ w' _ answers later) =
      ap (after_zone zones all) answers
      ∙ records_of-Lists zones (all ++ map (e.cast route53_resource_record) records) rs w' w'' later
      ∙ ap (λ xs. ((xs, none), none, w''))
          (append_assoc all (map (e.cast route53_resource_record) records) rs)

  -- Without a cache, where the zones are listed and each of them lists its records, the answer is
  -- the records of all the zones, in the order of the zones, and no error.
  pub find_route53_resource_records-Lists :
      (zones : List (Item route53_hosted_zone)) (rs : List R) (w w' w'' : W)
      → repos.route53_list_hosted_zones_all client w ≡ ((zones, none), w')
      → Lists zones w' rs w''
      → find_route53_resource_records e repos client none w ≡ ((rs, none), none, w'')
  unfolding find_route53_resource_records list_with
  find_route53_resource_records-Lists zones rs w w' w'' answers lists =
      ap after_zones answers ∙ records_of-Lists zones [] rs w' w'' lists
