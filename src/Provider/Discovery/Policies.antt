-- ===== src/Provider/Discovery/Policies.antt =====
-- provider/role_discovery.go: the pages of a role's policies, and the roles of all of them.
use awslib.Errors.{Error, Result, ok, fail}
use awslib.Provider.Discovery.{
  kept_arns, PolicyDocument, extract_assume_role_arns_from_policy, decode_policy_document, decoded,
  role_arns, extract_from, Iam, list_pages, list_attached_role_policies, collect, collected,
  and_then, discover_assumable_roles,
}
use awslib.Prelude.{
  ℕ, zero, suc, ◌≤◌, String, ◌≡◌, refl, sym, ◌∙◌, ap, true, false, Option, some, List, [], ◌∷◌,
  ◌++◌, length, string_eq, append_nil, arith,
}
use mathlib.Core.List.{append_assoc}

module _ {W : Type 0} (i : Iam W) where
  -- The paginator serves these pages of policies, to its end.
  pub data Pages : W → List (List String) → W → Type 0 where
    no_page : (w : W) → i.has_more_pages w ≡ false → Pages w [] w
    next_page :
        (w w' w'' : W) (page : List String) (pages : List (List String))
        → i.has_more_pages w ≡ true
        → i.next_page w ≡ (ok page, w')
        → Pages w' pages w''
        → Pages w (page ∷ pages) w''

  abbrev pub concat : List (List String) → List String
  concat [] = []
  concat (page ∷ pages) = page ++ concat pages

  -- the rest of a turn of the loop
  abbrev after_page : ℕ → List String → Result (List String) × W → Option (Result (List String) × W)
  after_page fuel policies (answer, w) = elim answer [
    | fail e ↦ some (fail (i.wrap e), w)
    | ok page ↦ list_pages i fuel (policies ++ page) w
  ]

  list_pages-Pages :
      (fuel : ℕ) (policies : List String) (w w' : W) (pages : List (List String))
      → Pages w pages w'
      → length pages ≤ fuel
      → list_pages i fuel policies w ≡ some (ok (policies ++ concat pages), w')
  unfolding list_pages
  list_pages-Pages zero policies w _ _ (no_page _ end) room =
      rw (end, list_pages) (ap (λ ps. some (ok ps, w)) (sym (append_nil policies)))
  list_pages-Pages (suc fuel) policies w _ _ (no_page _ end) room =
      rw (end, list_pages) (ap (λ ps. some (ok ps, w)) (sym (append_nil policies)))
  list_pages-Pages zero policies w _ _ (next_page _ w' w'' page pages more served later) room =
      absurd (omega arith)
  list_pages-Pages (suc fuel) policies w _ _ (next_page _ w' w'' page pages more served later)
        room =
      rw (more, list_pages)
        (ap (after_page fuel policies) served
          ∙ list_pages-Pages fuel (policies ++ page) w' w'' pages later (omega arith)
          ∙ ap (λ ps. some (ok ps, w'')) (append_assoc policies page (concat pages)))

  -- What reading these policies one after the other gives: the roles of the document of every policy
  -- that can be read, decoded and parsed; a policy that fails gives none.
  pub data Readings : List String → W → List String → W → Type 0 where
    nothing_read : (w : W) → Readings [] w [] w
    readable :
        (policy version document json : String) (policies rest : List String) (doc : PolicyDocument)
        (w w1 w2 w' : W)
        → i.get_policy policy w ≡ (ok version, w1)
        → i.get_policy_version policy version w1 ≡ (ok document, w2)
        → i.query_unescape document ≡ ok json
        → i.unmarshal json ≡ ok doc
        → Readings policies w2 rest w'
        → Readings (policy ∷ policies) w (extract_from doc.statement ++ rest) w'
    unreadable :
        (policy : String) (policies rest : List String) (e : Error) (w w1 w' : W)
        → extract_assume_role_arns_from_policy i policy w ≡ (fail e, w1)
        → Readings policies w1 rest w'
        → Readings (policy ∷ policies) w rest w'

  extract_readable :
      (policy version document json : String) (doc : PolicyDocument) (w w1 w2 : W)
      → i.get_policy policy w ≡ (ok version, w1)
      → i.get_policy_version policy version w1 ≡ (ok document, w2)
      → i.query_unescape document ≡ ok json
      → i.unmarshal json ≡ ok doc
      → extract_assume_role_arns_from_policy i policy w ≡ (ok (extract_from doc.statement), w2)
  unfolding extract_assume_role_arns_from_policy decode_policy_document
  extract_readable policy version document json doc w w1 w2 got_policy got_version decoded_text
        parsed =
      rw (got_policy, got_version, decoded_text) (rw (parsed, decoded) refl)

  -- the rest of a turn of the loop over the policies
  abbrev after_policy : List String → List String → Result (List String) × W → List String × W
  after_policy policies role_arns (arns, w) = collect i policies (kept_arns i arns role_arns) w

  collect-Readings :
      (policies found roles : List String) (w w' : W)
      → Readings policies w roles w'
      → collect i policies found w ≡ (found ++ roles, w')
  unfolding collect
  collect-Readings _ found _ w _ (nothing_read _) = ap (λ r. (r, w)) (sym (append_nil found))
  collect-Readings _ found _ w w'
        (readable policy version document json policies rest doc _ w1 w2 _ p v d u more) =
      ap (after_policy policies found)
        (extract_readable policy version document json doc w w1 w2 p v d u)
      ∙ collect-Readings policies (found ++ extract_from doc.statement) rest w2 w' more
      ∙ ap (λ r. (r, w')) (append_assoc found (extract_from doc.statement) rest)
  collect-Readings _ found _ w w' (unreadable policy policies rest e _ w1 _ failed more) =
      ap (after_policy policies found) failed ∙ collect-Readings policies found rest w1 w' more

  -- Where the pages of a role's policies are served to the end, the discovery ends, once it may ask
  -- for as many pages, and answers the roles of the documents of all the policies on them that can
  -- be read, one after the other; a policy that cannot be read is passed over.
  pub discover_assumable_roles-Pages :
      (fuel : ℕ) (role_name : String) (w w' w'' : W) (pages : List (List String))
      (roles : List String)
      → Pages (i.new_paginator role_name w) pages w'
      → length pages ≤ fuel
      → Readings (concat pages) w' roles w''
      → discover_assumable_roles i fuel role_name w ≡ some (ok roles, w'')
  unfolding discover_assumable_roles list_attached_role_policies
  discover_assumable_roles-Pages fuel role_name w w' w'' pages roles served room readings =
      ap (and_then i (collected i))
        (list_pages-Pages fuel [] (i.new_paginator role_name w) w' pages served room)
      ∙ ap (λ a. some (ok a.0, a.1)) (collect-Readings (concat pages) [] roles w' w'' readings)
