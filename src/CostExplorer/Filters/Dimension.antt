-- ===== src/CostExplorer/Filters/Dimension.antt =====
-- service/costexplorer/filter.go: the methods of DimensionFilter.
use awslib.CostExplorer.{Sdk, Expression, dimensions_expression}
use awslib.CostExplorer.Filters.{
  DimensionFilter, CostQueryError, is_empty, validate_match_options,
  cost_and_usage_dimension_match_options,
}
use awslib.CostExplorer.Operators.{negate}
use awslib.Gocollection.{Gocollection}
use awslib.Prelude.{String, true, Option, none, some, List, if◌then◌else◌}

abbrev pub matching : List String → DimensionFilter → DimensionFilter
matching options f = record f { match_options = options }

abbrev pub excluded : DimensionFilter → DimensionFilter
excluded f = record f { exclude = true }

unfoldable pub expression_of : DimensionFilter → Option Expression
expression_of f =
    if is_empty f.values
    then none
    else negate f.exclude (
        some (
          dimensions_expression
            (record { key = f.dimension; values = f.values; match_options = f.match_options })))

-- validateForCostAndUsage
unfoldable pub validate : Sdk → Gocollection → DimensionFilter → Option CostQueryError
validate sdk g f =
    validate_match_options g f.dimension f.match_options
      (cost_and_usage_dimension_match_options sdk)
