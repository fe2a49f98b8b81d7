-- ===== src/CostExplorer/Filters/CostCategory.antt =====
-- service/costexplorer/filter.go: the methods of CostCategoryFilter.
use Prim.Native.String.{◌++◌ as concat}
use awslib.CostExplorer.{Sdk, Expression, cost_categories_expression}
use awslib.CostExplorer.Filters.{
  CostCategoryFilter, CostQueryError, is_empty, validate_match_options,
  cost_and_usage_tag_match_options,
}
use awslib.CostExplorer.Operators.{negate}
use awslib.Gocollection.{Gocollection}
use awslib.Prelude.{String, true, ◌&&◌, Option, none, some, List, [], ◌∷◌, if◌then◌else◌}

abbrev pub matching : List String → CostCategoryFilter → CostCategoryFilter
matching options f = record f { match_options = options }

unfoldable pub absent : Sdk → CostCategoryFilter → CostCategoryFilter
absent sdk f = record f { values = []; match_options = sdk.match_option_absent ∷ [] }

unfoldable pub present_key : Sdk → CostCategoryFilter → CostCategoryFilter
unfolding absent
present_key sdk f = record (absent sdk f) { exclude = true }

abbrev pub excluded : CostCategoryFilter → CostCategoryFilter
excluded f = record f { exclude = true }

unfoldable pub expression_of : CostCategoryFilter → Option Expression
expression_of f =
    if is_empty f.values && is_empty f.match_options
    then none
    else negate f.exclude (
        some (
          cost_categories_expression
            (record { key = f.key; values = f.values; match_options = f.match_options })))

-- validateForCostAndUsage
unfoldable pub validate : Sdk → Gocollection → CostCategoryFilter → Option CostQueryError
validate sdk g f =
    validate_match_options g (concat "cost category " f.key) f.match_options
      (cost_and_usage_tag_match_options sdk)
