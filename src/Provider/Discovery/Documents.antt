-- ===== src/Provider/Discovery/Documents.antt =====
-- provider/role_discovery.go: the roles of a policy document.
use awslib.Gocollection.{elem}
use awslib.Provider.Discovery.{
  Any, text, array, other, Element, text_element, other_element, is_text, texts, Statement,
  contains_action, role_arns, assume_role, extract_from,
}
use awslib.Prelude.{
  String, ◌≡◌, refl, sym, ◌∙◌, ap, Bool, true, false, ◌||◌, List, [], ◌∷◌, ◌++◌, any, ◌==◌, ==_iff,
  ◌⊎◌, ◌↔◌, string_eq, arith, Bool-cases, inl, inr,
}

elem-append : (x : String) (xs ys : List String) → elem x (xs ++ ys) ≡ (elem x xs || elem x ys)
elem-append x [] ys = refl
elem-append x (z ∷ xs) ys = ground (arith, elem-append x xs ys)

abbrev pub Some : {A : Type 0} → (A → Type 0) → List A → Type 0
Some P [] = ⊥
Some P (x ∷ xs) = P x ⊎ Some P xs

-- The value is this text, or an array with this text in it.
abbrev pub Mentions : String → Any → Type 0
Mentions target (text t) = t ≡ target
Mentions target (array elements) = Some (λ x. x ≡ text_element target) elements
Mentions target other = ⊥

-- A statement that lets sts:AssumeRole be done, or forbids it, on the role.
abbrev pub Names : String → Statement → Type 0
Names role_arn stmt = Mentions "sts:AssumeRole" stmt.action × Mentions role_arn stmt.resource

or_iff : {P Q : Type 0} (p q : Bool) → (p ≡ true) ↔ P → (q ≡ true) ↔ Q → ((p || q) ≡ true) ↔ (P ⊎ Q)
or_iff true q hp hq = ((λ h. inl (hp.0 refl)), (λ h. refl))
or_iff false q hp hq = (
  (λ h. inr (hq.0 h)),
  (λ h. elim h [ inl p ↦ absurd (ground (arith, hp.1 p)) | inr x ↦ hq.1 x ]),
)

element_text : (t u : String) → t ≡ u → text_element t ≡ text_element u
element_text t u e = ap text_element e

is_text_iff :
    (target : String) (x : Element) → (is_text target x ≡ true) ↔ (x ≡ text_element target)
is_text_iff target (text_element t) =
    ((λ h. ap text_element ((==_iff t target).0 h)), (λ h. (==_iff t target).1 (cc h)))
is_text_iff target other_element = ((λ h. absurd (ground arith)), (λ h. cc))

any-is_text_iff :
    (target : String) (elements : List Element)
    → (any (is_text target) elements ≡ true) ↔ Some (λ x. x ≡ text_element target) elements
any-is_text_iff target [] = ((λ h. absurd (ground arith)), (λ h. absurd h))
any-is_text_iff target (x ∷ elements) =
    or_iff (is_text target x) (any (is_text target) elements) (is_text_iff target x)
      (any-is_text_iff target elements)

elem-texts :
    (target : String) (es : List Element) → elem target (texts es) ≡ any (is_text target) es
elem-texts target [] = refl
elem-texts target (text_element t ∷ es) = ap (λ b. t == target || b) (elem-texts target es)
elem-texts target (other_element ∷ es) = elem-texts target es

contains_action_iff :
    (target : String) (action : Any)
    → (contains_action action target ≡ true) ↔ Mentions target action
unfolding contains_action
contains_action_iff target (text t) = ==_iff t target
contains_action_iff target (array elements) = any-is_text_iff target elements
contains_action_iff target other = ((λ h. absurd (ground arith)), (λ h. absurd h))

role_arns_iff :
    (role_arn : String) (resource : Any)
    → (elem role_arn (role_arns resource) ≡ true) ↔ Mentions role_arn resource
role_arns_iff role_arn (text t) =
    ((λ h. (==_iff t role_arn).0 (ground arith)), (λ h. ground (arith, (==_iff t role_arn).1 h)))
role_arns_iff role_arn (array elements) = (
  (λ h. (any-is_text_iff role_arn elements).0 (sym (elem-texts role_arn elements) ∙ h)),
  (λ h. elem-texts role_arn elements ∙ (any-is_text_iff role_arn elements).1 h),
)
role_arns_iff role_arn other = ((λ h. absurd (ground arith)), (λ h. absurd h))

-- A role is extracted from a document exactly when some statement of it has the action
-- sts:AssumeRole, alone or in an array, and the role as resource, alone or in an array, whatever
-- the effect of the statement is.
pub elem-extract_from :
    (role_arn : String) (statements : List Statement)
    → (elem role_arn (extract_from statements) ≡ true) ↔ Some (Names role_arn) statements
unfolding extract_from
elem-extract_from role_arn [] = ((λ h. absurd (ground arith)), (λ h. absurd h))
elem-extract_from role_arn (stmt ∷ statements) =
    let action = contains_action_iff "sts:AssumeRole" stmt.action in
    let resource = role_arns_iff role_arn stmt.resource in
    let rest = elem-extract_from role_arn statements in
    elim (Bool-cases (contains_action stmt.action assume_role)) [
      | inl assumes ↦
          let split = elem-append role_arn (role_arns stmt.resource) (extract_from statements) in
          let either =
            or_iff (elem role_arn (role_arns stmt.resource))
              (elem role_arn (extract_from statements)) resource rest in
          rw (assumes, extract_from)
            (
              (λ h. elim (either.0 (sym split ∙ h)) [
                | inl here ↦ inl (action.0 assumes, here)
                | inr there ↦ inr there
              ]),
              (λ h. split ∙ either.1 (elim h [ inl here ↦ inl here.1 | inr there ↦ inr there ])),
            )
      | inr not_so ↦
          rw (not_so, extract_from)
            (
              (λ h. inr (rest.0 h)),
              (λ h. elim h [
                | inl here ↦ absurd (ground (arith, action.1 here.0))
                | inr there ↦ rest.1 there
              ]),
            )
    ]
