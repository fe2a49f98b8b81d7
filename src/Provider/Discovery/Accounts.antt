-- ===== src/Provider/Discovery/Accounts.antt =====
-- provider/role_discovery.go: which role stands for an account.
use awslib.Dict
use awslib.Dict.{Dict}
use awslib.Dict.Laws.{lookup-insert}
use awslib.Errors.{Result, ok, fail, Result-cases}
use awslib.Provider.Discovery.{Iam, Arn, by_account}
use awslib.Prelude.{
  String, ◌≡◌, refl, sym, ◌∙◌, ap, Option, none, some, List, [], ◌∷◌, ◌==◌, string_eq, inl, inr,
  Bool, true, false, if◌then◌else◌,
}

abbrev pub is_of : String → Result Arn → Bool
is_of account (ok arn) = arn.account_id == account
is_of account (fail e) = false

abbrev pub or_else : Option String → Option String → Option String
or_else none o = o
or_else (some role_arn) o = some role_arn

module _ {W : Type 0} (i : Iam W) where
  -- the last of the ARNs that parses to the account
  abbrev pub last_of : String → List String → Option String
  last_of account [] = none
  last_of account (role_arn ∷ arns) =
      or_else (last_of account arns)
        (if is_of account (i.parse role_arn) then some role_arn else none)

  or_else_assoc : (a b c : Option String) → or_else (or_else a b) c ≡ or_else a (or_else b c)
  or_else_assoc none b c = refl
  or_else_assoc (some x) b c = refl

  or_else-none : (a : Option String) → or_else a none ≡ a
  or_else-none none = refl
  or_else-none (some x) = refl

  lookup-by_account_from :
      (account : String) (arns : List String) (roles : Dict String String)
      → Dict.lookup account (by_account i arns roles)
        ≡ or_else (last_of account arns) (Dict.lookup account roles)
  unfolding by_account
  lookup-by_account_from account [] roles = refl
  lookup-by_account_from account (role_arn ∷ arns) roles = elim (Result-cases (i.parse role_arn)) [
    | inl (arn, parsed) ↦
        rw (parsed, by_account)
          (lookup-by_account_from account arns (Dict.insert arn.account_id role_arn roles)
            ∙ ap (or_else (last_of account arns))
                (lookup-insert arn.account_id account role_arn roles)
            ∙ ap (or_else (last_of account arns))
                (replaced (arn.account_id == account) role_arn (Dict.lookup account roles))
            ∙ sym (or_else_assoc (last_of account arns) _ (Dict.lookup account roles)))
    | inr (e, failed) ↦
        rw (failed, by_account)
          (lookup-by_account_from account arns roles
            ∙ sym (or_else_assoc (last_of account arns) none (Dict.lookup account roles)))
  ]
    where
      replaced :
          (same : Bool) (x : String) (o : Option String)
          → (if same then some x else o) ≡ or_else (if same then some x else none) o
      replaced true x o = refl
      replaced false x o = refl

  -- The role that the discovery keeps for an account is the last one of the ARNs that parse to it;
  -- an ARN that does not parse stands for no account.
  lookup-by_account :
      (account : String) (arns : List String)
      → Dict.lookup account (by_account i arns []) ≡ last_of account arns
  unfolding Dict.lookup
  lookup-by_account account arns =
      lookup-by_account_from account arns [] ∙ or_else-none (last_of account arns)
