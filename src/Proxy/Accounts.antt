-- ===== src/Proxy/Accounts.antt =====
-- Which proxy stands for an account when a global type has no proxy in a preferred region.
use awslib.Dict
use awslib.Dict.{Dict}
use awslib.Dict.Laws.{lookup-insert}
use awslib.Prelude.{
  String, ◌≡◌, refl, sym, ◌∙◌, ap, Bool, true, false, Option, none, some, List, [], ◌∷◌, ◌==◌,
  string_eq, ==_iff, Option-cases, inl, inr, if◌then◌else◌,
}
use awslib.Proxy.{Gateway, client_of, any_gateways}

module _ {C D : Type 0} (account region : C → String) where
  abbrev pub first_of : String → List (Gateway C D) → Option (Gateway C D)
  first_of a [] = none
  first_of a (gw ∷ gateways) = if account (client_of gw) == a then some gw else first_of a gateways

  abbrev pub or_else : Option (Gateway C D) → Option (Gateway C D) → Option (Gateway C D)
  or_else none gw = gw
  or_else (some kept) gw = some kept

  seen_keeps :
      (a k : String) (seen : Option (Gateway C D)) (same : Bool) (gw kept : Gateway C D)
      (rest : Option (Gateway C D))
      → (same ≡ true → seen ≡ some kept)
      → or_else seen rest ≡ or_else seen (if same then some gw else rest)
  seen_keeps a k seen true gw kept rest held =
      ap (λ s. or_else s rest) (held refl) ∙ sym (ap (λ s. or_else s (some gw)) (held refl))
  seen_keeps a k seen false gw kept rest held = refl

  seen_adds :
      (seen : Option (Gateway C D)) (same : Bool) (gw : Gateway C D) (rest : Option (Gateway C D))
      → (same ≡ true → seen ≡ none)
      → or_else (if same then some gw else seen) rest
        ≡ or_else seen (if same then some gw else rest)
  seen_adds seen true gw rest missing = sym (ap (λ s. or_else s (some gw)) (missing refl))
  seen_adds seen false gw rest missing = refl

  lookup-any_gateways :
      (a : String) (gateways : List (Gateway C D)) (seen : Dict String (Gateway C D))
      → Dict.lookup a (any_gateways account region gateways seen)
        ≡ or_else (Dict.lookup a seen) (first_of a gateways)
  unfolding any_gateways
  lookup-any_gateways a [] seen = elim (Option-cases (Dict.lookup a seen)) [
    | inl missing ↦ rw missing
    | inr (kept, held) ↦ rw held
  ]
  lookup-any_gateways a (gw ∷ gateways) seen =
      let k = account (client_of gw) in
      elim (Option-cases (Dict.lookup k seen)) [
        | inr (kept, held) ↦
            rw (held, any_gateways)
              (lookup-any_gateways a gateways seen
                ∙ seen_keeps a k (Dict.lookup a seen) (k == a) gw kept (first_of a gateways)
                    (λ e. ap (λ j. Dict.lookup j seen) (sym ((==_iff k a).0 e)) ∙ held))
        | inl missing ↦
            rw (missing, any_gateways)
              (lookup-any_gateways a gateways (Dict.insert k gw seen)
                ∙ ap (λ s. or_else s (first_of a gateways)) (lookup-insert k a gw seen)
                ∙ seen_adds (Dict.lookup a seen) (k == a) gw (first_of a gateways)
                    (λ e. ap (λ j. Dict.lookup j seen) (sym ((==_iff k a).0 e)) ∙ missing))
      ]

  -- The map that List builds when no proxy is in a preferred region holds, for every account, the
  -- first proxy of this account in the pool, and nothing for an account that the pool lacks.
  pub lookup-any_gateways_new :
      (a : String) (gateways : List (Gateway C D))
      → Dict.lookup a (any_gateways account region gateways []) ≡ first_of a gateways
  unfolding Dict.lookup
  lookup-any_gateways_new a gateways = lookup-any_gateways a gateways []
