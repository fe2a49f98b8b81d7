-- ===== src/CostExplorer/Requests/Totals.antt =====
-- The paged calls answer everything that the API serves, or an error.
use awslib.CostExplorer.{Sdk}
use awslib.CostExplorer.Query.{CostQuery, validate}
use awslib.CostExplorer.Requests.{
  Api, CostAndUsage, GetCostAndUsageOutput, add_page, no_costs, cost_pager, get_cost_and_usage,
  cost_and_usage_input, get_cost_and_usage_by_query,
}
use awslib.Errors.{Error}
use awslib.CostExplorer.Validity.{IsValid, validate_iff}
use awslib.Gocollection.{Gocollection}
use awslib.Paging.Runs.{Pages, fold, follow-Pages}
use awslib.Prelude.{
  ℕ, ◌≤◌, ◌≡◌, refl, sym, ◌∙◌, ap, none, some, List, [], ◌∷◌, ◌++◌, length, append_nil,
  Option-cases, inl, inr,
}

abbrev pub gathered : {A B : Type 0} → (A → List B) → List A → List B
gathered f [] = []
gathered f (x ∷ xs) = f x ++ gathered f xs

append_assoc : {A : Type 0} (xs ys zs : List A) → (xs ++ ys) ++ zs ≡ xs ++ (ys ++ zs)
append_assoc [] ys zs = refl
append_assoc (x ∷ xs) ys zs = ap (◌∷◌ x) (append_assoc xs ys zs)

-- A part of the result that every page appends to holds what all pages have.
fold-gathered :
    {A B R : Type 0} (add : R → A → R) (part : R → List B) (page : A → List B)
    → ((r : R) (x : A) → part (add r x) ≡ part r ++ page x)
    → (r : R) (xs : List A) → part (fold add r xs) ≡ part r ++ gathered page xs
fold-gathered add part page step r [] = sym (append_nil (part r))
fold-gathered add part page step r (x ∷ xs) =
    fold-gathered add part page step (add r x) xs
    ∙ ap (λ t. t ++ gathered page xs) (step r x)
    ∙ append_assoc (part r) (page x) (gathered page xs)

module _ {S A R D F O : Type 0} (api : Api S A R D F O) where
  -- For a query that passes the checks, and when the API serves its pages while the context is not
  -- done, the call ends with no error once it may ask for as many pages, and with the attributes
  -- and the results of all of them, in the order of the pages.
  pub get_cost_and_usage_by_query-Pages :
      (sdk : Sdk) (g : Gocollection) (q : CostQuery) (fuel : ℕ) (s s' : S)
      (outputs : List (GetCostAndUsageOutput A R))
      → IsValid sdk q
      → Pages (cost_pager api (cost_and_usage_input api sdk q)) none s outputs s'
      → length outputs ≤ fuel
      → (result : CostAndUsage A R) × (get_cost_and_usage_by_query api sdk g fuel q s
          ≡ (some (some result, none), s'))
        × (result.dimension_value_attributes
            ≡ gathered (λ output. output.dimension_value_attributes) outputs)
        × (result.results_by_time ≡ gathered (λ output. output.results_by_time) outputs)
  unfolding get_cost_and_usage_by_query get_cost_and_usage add_page
  get_cost_and_usage_by_query-Pages sdk g q fuel s s' outputs valid pages room =
      let pager = cost_pager api (cost_and_usage_input api sdk q) in
      (
        fold (add_page api) (no_costs api) outputs,
        rw ((validate_iff sdk g q).1 valid, get_cost_and_usage_by_query)
            (follow-Pages pager fuel none (no_costs api) s s' outputs pages room),
        fold-gathered (add_page api) (λ r. r.dimension_value_attributes)
            (λ output. output.dimension_value_attributes) (λ r output. refl) (no_costs api) outputs,
        fold-gathered (add_page api) (λ r. r.results_by_time) (λ output. output.results_by_time)
            (λ r output. refl) (no_costs api) outputs,
      )

  -- A query that does not pass the checks is answered with an error and no result, and nothing is
  -- asked of the API.
  pub get_cost_and_usage_by_query_refused :
      (sdk : Sdk) (g : Gocollection) (q : CostQuery) (fuel : ℕ) (s : S)
      → (IsValid sdk q → ⊥)
      → (e : Error) × (get_cost_and_usage_by_query api sdk g fuel q s ≡ (some (none, some e), s))
  unfolding get_cost_and_usage_by_query
  get_cost_and_usage_by_query_refused sdk g q fuel s invalid =
      elim (Option-cases (validate sdk g q)) [
        | inl fine ↦ absurd (invalid ((validate_iff sdk g q).0 fine))
        | inr (e, wrong) ↦ (api.errorf e, rw (wrong, get_cost_and_usage_by_query))
      ]
