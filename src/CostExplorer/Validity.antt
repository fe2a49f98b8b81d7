-- ===== src/CostExplorer/Validity.antt =====
-- What `validate` accepts, as a predicate on the query that does not run the checks.
use Prim.Native.String.{◌++◌ as concat}
use awslib.CostExplorer.{Sdk}
use awslib.CostExplorer.Filters.{
  Filter, dimension_filter, tag_filter, cost_category_filter, validate_match_options, is_empty,
  needs_start_and_end, end_not_after_start, needs_metric, too_many_groupings, empty_grouping_key,
  unsupported_match_option, cost_and_usage_dimension_match_options,
  cost_and_usage_tag_match_options,
}
use awslib.CostExplorer.Filters.Dimension
use awslib.CostExplorer.Filters.Tag
use awslib.CostExplorer.Filters.CostCategory
use awslib.CostExplorer.Filters.Rows.{validate_row}
use awslib.CostExplorer.Groups.{GroupDefinition, max_group_by}
use awslib.CostExplorer.Query.{CostQuery, validate_groups, validate_rows, validate, is_zero}
use awslib.Gocollection.{Gocollection, elem}
use awslib.Prelude.Int.{ℤ, pos_part, neg_part, ltb_ℤ}
use awslib.Prelude.{
  ℕ, ◌+◌, ◌≤◌, ◌<◌, String, ◌≡◌, ◌≢◌, ◌↔◌, refl, sym, ◌∙◌, if◌then◌else◌, Bool, true, false, ◌||◌,
  not, Option, none, some, List, [], ◌∷◌, ltb, length, ◌==◌, string_eq, ==_iff, All, arith,
}

-- An instant before another.
abbrev pub IsBefore : ℤ → ℤ → Type 0
IsBefore s t = pos_part s + neg_part t < pos_part t + neg_part s

abbrev pub IsGiven : ℤ → Type 0
IsGiven t = pos_part t ≢ neg_part t

-- The match options of a row are among those that the API takes for its kind.
abbrev pub IsSupported : Sdk → Filter → Type 0
IsSupported sdk (dimension_filter f) =
    All (λ o. elem o (cost_and_usage_dimension_match_options sdk) ≡ true) f.match_options
IsSupported sdk (tag_filter f) =
    All (λ o. elem o (cost_and_usage_tag_match_options sdk) ≡ true) f.match_options
IsSupported sdk (cost_category_filter f) =
    All (λ o. elem o (cost_and_usage_tag_match_options sdk) ≡ true) f.match_options

true≢false : true ≢ false
true≢false e = ground arith

no_error : {E : Type 0} (e : E) → some e ≢ none
no_error e h = cc

false_iff : {P : Type 0} (b : Bool) → (b ≡ true) ↔ P → (b ≡ false) ↔ (P → ⊥)
false_iff true p = (λ h. absurd (true≢false h), λ n. absurd (n (p.0 refl)))
false_iff false p = (λ h x. true≢false (sym (p.1 x)), λ n. refl)

errors_iff :
    {E : Type 0} {P Q : Type 0} (first rest : Option E)
    → (first ≡ none) ↔ P
    → (rest ≡ none) ↔ Q
    → ((elim first [ some e ↦ some e | none ↦ rest ]) ≡ none) ↔ (P × Q)
errors_iff none rest p q = (λ h. (p.0 refl, q.0 h), λ both. q.1 both.1)
errors_iff (some e) rest p q =
    (λ h. absurd (no_error e h), λ both. absurd (no_error e (p.1 both.0)))

-- A check before others passes exactly when its condition does not hold and they pass.
check_iff :
    {E : Type 0} {P Q : Type 0} (b : Bool) (e : E) (rest : Option E)
    → (b ≡ false) ↔ P
    → (rest ≡ none) ↔ Q
    → ((if b then some e else rest) ≡ none) ↔ (P × Q)
check_iff true e rest p q = (λ h. absurd (no_error e h), λ both. absurd (true≢false (p.1 both.0)))
check_iff false e rest p q = (λ h. (p.0 refl, q.0 h), λ both. q.1 both.1)

passes_iff :
    {E : Type 0} {P Q : Type 0} (b : Bool) (e : E) (rest : Option E)
    → (b ≡ true) ↔ P
    → (rest ≡ none) ↔ Q
    → ((if b then rest else some e) ≡ none) ↔ (P × Q)
passes_iff true e rest p q = (λ h. (p.0 refl, q.0 h), λ both. q.1 both.1)
passes_iff false e rest p q =
    (λ h. absurd (no_error e h), λ both. absurd (true≢false (sym (p.1 both.0))))

validate_match_options_iff :
    (g : Gocollection) (subject : String) (options allowed : List String)
    → (validate_match_options g subject options allowed ≡ none)
      ↔ All (λ o. elem o allowed ≡ true) options
unfolding validate_match_options
validate_match_options_iff g subject [] allowed = (λ e. tt, λ a. refl)
validate_match_options_iff g subject (opt ∷ options) allowed =
    let rest = validate_match_options_iff g subject options allowed in
    passes_iff (g.contains allowed opt) (unsupported_match_option opt subject allowed)
      (validate_match_options g subject options allowed)
      (λ h. sym (g.contains_elem allowed opt) ∙ h, λ h. g.contains_elem allowed opt ∙ h) rest

validate_groups_iff :
    (groups : List GroupDefinition)
    → (validate_groups groups ≡ none) ↔ All (λ group. group.key ≢ "") groups
unfolding validate_groups
validate_groups_iff [] = (λ e. tt, λ a. refl)
validate_groups_iff (group ∷ groups) =
    check_iff (group.key == "") (empty_grouping_key group.kind) (validate_groups groups)
      (false_iff (group.key == "") (==_iff group.key "")) (validate_groups_iff groups)

validate_row_iff :
    (sdk : Sdk) (g : Gocollection) (f : Filter) → (validate_row sdk g f ≡ none) ↔ IsSupported sdk f
unfolding validate_row Dimension.validate Tag.validate CostCategory.validate
validate_row_iff sdk g (dimension_filter f) =
    validate_match_options_iff g f.dimension f.match_options
      (cost_and_usage_dimension_match_options sdk)
validate_row_iff sdk g (tag_filter f) =
    validate_match_options_iff g (concat "tag " f.key) f.match_options
      (cost_and_usage_tag_match_options sdk)
validate_row_iff sdk g (cost_category_filter f) =
    validate_match_options_iff g (concat "cost category " f.key) f.match_options
      (cost_and_usage_tag_match_options sdk)

validate_rows_iff :
    (sdk : Sdk) (g : Gocollection) (filters : List Filter)
    → (validate_rows sdk g filters ≡ none) ↔ All (IsSupported sdk) filters
unfolding validate_rows
validate_rows_iff sdk g [] = (λ e. tt, λ a. refl)
validate_rows_iff sdk g (f ∷ filters) =
    errors_iff (validate_row sdk g f) (validate_rows sdk g filters) (validate_row_iff sdk g f)
      (validate_rows_iff sdk g filters)

IsGiven-iff : (s e : ℤ) → ((is_zero s || is_zero e) ≡ false) ↔ (IsGiven s × IsGiven e)
IsGiven-iff s e = (λ h. (ground arith, ground arith), λ both. ground (arith, both.0, both.1))

IsBefore-iff : (s e : ℤ) → (not (ltb_ℤ s e) ≡ false) ↔ IsBefore s e
IsBefore-iff s e = (λ h. ground arith, λ h. ground arith)

full_iff : {A : Type 0} (xs : List A) → (is_empty xs ≡ false) ↔ (xs ≢ [])
full_iff [] = (λ h. absurd (true≢false h), λ n. absurd (n refl))
full_iff (x ∷ xs) = (λ h e. cc, λ n. refl)

within_iff : (n : ℕ) → (ltb max_group_by n ≡ false) ↔ (n ≤ 2)
within_iff n = (λ h. ground arith, λ h. ground arith)

-- A query that the API takes: its start and end are set, its start is before its end, it has a
-- metric, it has at most two groupings, each with a key, and each filter row has only match options
-- that stand for rows of its kind.
abbrev pub IsValid : Sdk → CostQuery → Type 0
IsValid sdk q =
    (IsGiven q.start × IsGiven q.end)
    × (IsBefore q.start q.end
        × ((q.metrics ≢ [])
            × ((length q.group_by ≤ 2)
                × (All (λ group. group.key ≢ "") q.group_by × All (IsSupported sdk) q.filters))))

-- Validate finds nothing wrong with a query exactly when its start and end are set, its start is
-- before its end, it has a metric, it has at most two groupings, each with a key, and each filter
-- row has only match options that the API takes for rows of its kind.
pub validate_iff :
    (sdk : Sdk) (g : Gocollection) (q : CostQuery) → (validate sdk g q ≡ none) ↔ IsValid sdk q
unfolding validate
validate_iff sdk g q =
    check_iff (is_zero q.start || is_zero q.end) needs_start_and_end _ (IsGiven-iff q.start q.end) (
      check_iff (not (ltb_ℤ q.start q.end)) end_not_after_start _ (IsBefore-iff q.start q.end) (
        check_iff (is_empty q.metrics) needs_metric _ (full_iff q.metrics) (
          check_iff (ltb max_group_by (length q.group_by)) (too_many_groupings (length q.group_by))
            _ (within_iff (length q.group_by))
            (errors_iff (validate_groups q.group_by) (validate_rows sdk g q.filters)
              (validate_groups_iff q.group_by) (validate_rows_iff sdk g q.filters)))))
