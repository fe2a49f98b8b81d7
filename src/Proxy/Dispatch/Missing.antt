-- ===== src/Proxy/Dispatch/Missing.antt =====
-- proxy/proxy.go: the types that service/cfg/resources.go lists and FindAll does not support.
use awslib.Cache.{DataCache}
use awslib.Dict
use awslib.Gocollection.{elem}
use awslib.Proxy.{RepoProxy}
use awslib.Proxy.Dispatch.{Finder, cases, worded, not_supported, answer_of, find_all}
use awslib.Proxy.Finders.{Repositories, Surroundings}
use awslib.Service.Cfg.{
  Kind, text, trail, athena_data_catalog, athena_work_group, resource_type_list,
}
use awslib.Prelude.{
  String, ◌≡◌, refl, ap, Bool, true, false, none, some, List, [], ◌∷◌, ◌++◌, map, take, drop, All,
  any, not, ◌==◌, ==_iff, ==_refl, string_eq, arith, Bool-cases, inl, inr,
}

-- The switch has a case for it.
abbrev has_case : Kind → Bool
has_case trail = false
has_case athena_data_catalog = false
has_case athena_work_group = false
has_case k = true

elem-middle : (xs : List String) (x : String) (ys : List String) → elem x (xs ++ (x ∷ ys)) ≡ true
elem-middle [] x ys = ground (arith, ==_refl x)
elem-middle (z ∷ xs) x ys = ground (arith, elem-middle xs x ys)

module _ {C W H R : Type 0} {Item : Kind → Type 0} (sdk : Kind → String)
    (apart : (j k : Kind) → text sdk j ≡ text sdk k → j ≡ k) (e : Surroundings C W H R Item)
    (repos : Repositories C W Item) where
  cases-any : any (λ kf. not (has_case kf.0)) (cases sdk e repos) ≡ false
  cases-any = refl

  lookup-worded :
      (kfs : List (Kind × Finder C W H R)) (k : Kind)
      → has_case k ≡ false
      → any (λ kf. not (has_case kf.0)) kfs ≡ false
      → Dict.lookup (text sdk k) (worded sdk e repos kfs) ≡ none
  unfolding Dict.lookup
  lookup-worded [] k h hs = refl
  lookup-worded ((j, finder) ∷ kfs) k h hs = elim (Bool-cases (text sdk j == text sdk k)) [
    | inl same ↦
        absurd (
          ground
            (arith, hs, h, ap has_case (apart j k ((==_iff (text sdk j) (text sdk k)).0 same))))
    | inr other ↦ rw (other, Dict.lookup) (lookup-worded kfs k h (ground (arith, hs)))
  ]

  find_all-missing :
      (proxy : RepoProxy C (DataCache H)) (w : W) (k : Kind)
      → has_case k ≡ false
      → find_all sdk e repos proxy (text sdk k) w
        ≡ (([], some (not_supported sdk e repos (text sdk k))), proxy.cache, w)
  unfolding find_all
  find_all-missing proxy w k h =
      ap (λ o. answer_of sdk e repos (text sdk k) o proxy.client proxy.cache w)
        (lookup-worded (cases sdk e repos) k h cases-any)

  -- Where the constants have different texts, the data catalogs and work groups of Athena and the
  -- trails are listed as resource types, but FindAll of them answers nothing and the error that the
  -- type is not supported, and it asks no repository and changes nothing.
  pub find_all_lacking :
      (proxy : RepoProxy C (DataCache H)) (w : W)
      → All
          (λ k.
            (elem (text sdk k) (map (text sdk) resource_type_list) ≡ true)
            × (find_all sdk e repos proxy (text sdk k) w
                ≡ (([], some (not_supported sdk e repos (text sdk k))), proxy.cache, w)))
          (athena_data_catalog ∷ (athena_work_group ∷ (trail ∷ [])))
  find_all_lacking proxy w = (
    (
      elem-middle (map (text sdk) (take 0 resource_type_list)) (text sdk athena_data_catalog)
          (map (text sdk) (drop 1 resource_type_list)),
      find_all-missing proxy w athena_data_catalog refl,
    ),
    (
      (
        elem-middle (map (text sdk) (take 1 resource_type_list)) (text sdk athena_work_group)
            (map (text sdk) (drop 2 resource_type_list)),
        find_all-missing proxy w athena_work_group refl,
      ),
      (
        (
          elem-middle (map (text sdk) (take 6 resource_type_list)) (text sdk trail)
              (map (text sdk) (drop 7 resource_type_list)),
          find_all-missing proxy w trail refl,
        ),
        tt,
      ),
    ),
  )
