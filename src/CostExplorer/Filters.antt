-- ===== src/CostExplorer/Filters.antt =====
-- service/costexplorer/filter.go: the filter rows, each a record of its own, and what they render to.
pub mod Dimension
pub mod Tag
pub mod CostCategory
pub mod Rows
use awslib.CostExplorer.{Sdk}
use awslib.Gocollection.{Gocollection}
use awslib.Prelude.{
  ℕ, String, Bool, true, false, ◌&&◌, Option, none, some, List, [], ◌∷◌, map, if◌then◌else◌,
}

pub record DimensionFilter : Type 0 where
  pub dimension : String
  pub values : List String
  pub match_options : List String
  pub exclude : Bool

pub record TagFilter : Type 0 where
  pub key : String
  pub values : List String
  pub match_options : List String
  pub exclude : Bool

pub record CostCategoryFilter : Type 0 where
  pub key : String
  pub values : List String
  pub match_options : List String
  pub exclude : Bool

-- the interface Filter, by the types that implement it
pub data Filter : Type 0 where
  dimension_filter : DimensionFilter → Filter
  tag_filter : TagFilter → Filter
  cost_category_filter : CostCategoryFilter → Filter

-- What stops a query from being sent: the arguments of the errors' texts.
pub data CostQueryError : Type 0 where
  needs_start_and_end : CostQueryError
  end_not_after_start : CostQueryError
  needs_metric : CostQueryError
  too_many_groupings : ℕ → CostQueryError
  empty_grouping_key : String → CostQueryError
  unsupported_match_option : (opt subject : String) (allowed : List String) → CostQueryError

abbrev pub is_empty {ℓ} : {A : Type ℓ} → List A → Bool
is_empty [] = true
is_empty (x ∷ xs) = false

-- ByDimension, ByTag and ByCostCategory
abbrev pub by_dimension : String → List String → DimensionFilter
by_dimension dimension values = record {
  dimension = dimension;
  values = values;
  match_options = [];
  exclude = false;
}

abbrev pub by_tag : String → List String → TagFilter
by_tag key values = record { key = key; values = values; match_options = []; exclude = false }

abbrev pub by_cost_category : String → List String → CostCategoryFilter
by_cost_category key values = record {
  key = key;
  values = values;
  match_options = [];
  exclude = false;
}

unfoldable pub validate_match_options :
    Gocollection → String → List String → List String → Option CostQueryError
validate_match_options g subject [] allowed = none
validate_match_options g subject (opt ∷ options) allowed =
    if g.contains allowed opt
    then validate_match_options g subject options allowed
    else some (unsupported_match_option opt subject allowed)

-- costAndUsageDimensionMatchOptions and costAndUsageTagMatchOptions
abbrev pub cost_and_usage_dimension_match_options : Sdk → List String
cost_and_usage_dimension_match_options sdk =
    sdk.match_option_equals ∷ (sdk.match_option_case_sensitive ∷ [])

abbrev pub cost_and_usage_tag_match_options : Sdk → List String
cost_and_usage_tag_match_options sdk =
    sdk.match_option_equals ∷ (sdk.match_option_absent ∷ (sdk.match_option_case_sensitive ∷ []))
