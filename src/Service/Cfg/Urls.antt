-- ===== src/Service/Cfg/Urls.antt =====
-- service/cfg/resources.go: the round trip of a resource type through its URL form.
use awslib.Gocollection.{Gocollection, elem, first}
use awslib.Service.Cfg.{
  Kind, text, or_empty, resource_type_list, resource_type_to_url, resource_type_from_url,
}
use awslib.Prelude.{
  String, ◌≡◌, ◌↔◌, refl, sym, ◌∙◌, ap, Bool, true, false, not, ◌&&◌, Option, none, some, List, [],
  ◌∷◌, any, keep, map, ◌==◌, ==_iff, string_eq, arith, Bool-cases, inl, inr,
}

some_inj : {r q : String} → Path (Option String) (some r) (some q) → r ≡ q
some_inj h = cc

module _ (url : String → String) where
  -- No two of the types have one URL form.
  abbrev pub all_apart : List String → Bool
  all_apart [] = true
  all_apart (r ∷ rs) = not (any (λ q. url q == url r) rs) && all_apart rs

  -- the first one whose URL form is the text
  abbrev found : List String → String → Option String
  found rs t = first (keep (λ r. url r == t) rs)

  first_hit :
      (q : String) (rs : List String) (t : String) → (url q == t) ≡ true → found (q ∷ rs) t ≡ some q
  first_hit q rs t same =
      ap
        (λ b. first (elim b as (λ _. List String) [
          | true ↦ q ∷ keep (λ r. url r == t) rs
          | false ↦ keep (λ r. url r == t) rs
        ]))
        same

  first_miss :
      (q : String) (rs : List String) (t : String)
      → (url q == t) ≡ false
      → found (q ∷ rs) t ≡ found rs t
  first_miss q rs t other =
      ap
        (λ b. first (elim b as (λ _. List String) [
          | true ↦ q ∷ keep (λ r. url r == t) rs
          | false ↦ keep (λ r. url r == t) rs
        ]))
        other

  found-url :
      (rs : List String) (t r : String) → found rs t ≡ some r → (elem r rs ≡ true) × (url r ≡ t)
  found-url [] t r h = absurd (cc h)
  found-url (q ∷ rs) t r h = elim (Bool-cases (url q == t)) [
    | inl same ↦
        let at : q ≡ r = some_inj (sym (first_hit q rs t same) ∙ h) in
        (ground (arith, ==_iff q r), sym (ap url at) ∙ (==_iff (url q) t).0 same)
    | inr other ↦
        let (e, u) = found-url rs t r (sym (first_miss q rs t other) ∙ h) in (ground (arith, e), u)
  ]

  any_url :
      (rs : List String) (r u : String)
      → elem r rs ≡ true
      → url r ≡ u
      → any (λ q. url q == u) rs ≡ true
  any_url [] r u h e = h
  any_url (q ∷ rs) r u h e = elim (Bool-cases (q == r)) [
    | inl same ↦ rw ((==_iff (url q) u).1 (ap url ((==_iff q r).0 same) ∙ e)) refl
    | inr other ↦ ground (arith, any_url rs r u)
  ]

  found-elem :
      (rs : List String) (r : String)
      → all_apart rs ≡ true
      → elem r rs ≡ true
      → found rs (url r) ≡ some r
  found-elem [] r apart h = absurd (ground arith)
  found-elem (q ∷ rs) r apart h = elim (Bool-cases (q == r)) [
    | inl same ↦
        let at : q ≡ r = (==_iff q r).0 same in
        first_hit q rs (url r) ((==_iff (url q) (url r)).1 (ap url at)) ∙ ap some at
    | inr other ↦ elim (Bool-cases (url q == url r)) [
      | inl clash ↦
          let twice =
            any_url rs r (url q) (ground (arith, h)) (sym ((==_iff (url q) (url r)).0 clash)) in
          absurd (ground (arith, twice, apart))
      | inr fresh ↦
          first_miss q rs (url r) fresh
          ∙ found-elem rs r (ground (arith, apart)) (ground (arith, h))
    ]
  ]

or_empty_present : (o : Option String) (r : String) → or_empty o ≡ (r, true) → o ≡ some r
or_empty_present none r h = absurd (cc (ap (λ p. p.1) h))
or_empty_present (some q) r h = ap (λ p. some p.0) h

-- Where no two of the listed resource types have one URL form, ResourceTypeFromUrl answers a type
-- for a text exactly when the type is listed and the text is its URL form.
pub resource_type_from_url_iff :
    (g : Gocollection) (sdk : Kind → String) (t r : String)
    → all_apart resource_type_to_url (map (text sdk) resource_type_list) ≡ true
    → (resource_type_from_url g sdk t ≡ (r, true))
      ↔ ((elem r (map (text sdk) resource_type_list) ≡ true) × (resource_type_to_url r ≡ t))
unfolding resource_type_from_url
resource_type_from_url_iff g sdk t r apart =
    let types = map (text sdk) resource_type_list in
    let find = g.find_first types (λ q. resource_type_to_url q == t) in
    (
      λ h.
          found-url resource_type_to_url types t r
            (sym find ∙ or_empty_present (g.find types (λ q. resource_type_to_url q == t)) r h),
      λ h. ap or_empty (
          find
          ∙ ap (λ u. first (keep (λ q. resource_type_to_url q == u) types)) (sym h.1)
          ∙ found-elem resource_type_to_url types r apart h.0),
    )
