-- ===== src/CostExplorer/Filters/Tag.antt =====
-- service/costexplorer/filter.go: the methods of TagFilter.
use Prim.Native.String.{◌++◌ as concat}
use awslib.CostExplorer.{Sdk, Expression, tags_expression}
use awslib.CostExplorer.Filters.{
  TagFilter, CostQueryError, is_empty, validate_match_options, cost_and_usage_tag_match_options,
}
use awslib.CostExplorer.Operators.{negate}
use awslib.Gocollection.{Gocollection}
use awslib.Prelude.{String, true, ◌&&◌, Option, none, some, List, [], ◌∷◌, if◌then◌else◌}

abbrev pub matching : List String → TagFilter → TagFilter
matching options f = record f { match_options = options }

unfoldable pub absent : Sdk → TagFilter → TagFilter
absent sdk f = record f { values = []; match_options = sdk.match_option_absent ∷ [] }

unfoldable pub present_key : Sdk → TagFilter → TagFilter
unfolding absent
present_key sdk f = record (absent sdk f) { exclude = true }

abbrev pub excluded : TagFilter → TagFilter
excluded f = record f { exclude = true }

unfoldable pub expression_of : TagFilter → Option Expression
expression_of f =
    if is_empty f.values && is_empty f.match_options
    then none
    else negate f.exclude (
        some (
          tags_expression
            (record { key = f.key; values = f.values; match_options = f.match_options })))

-- validateForCostAndUsage
unfoldable pub validate : Sdk → Gocollection → TagFilter → Option CostQueryError
validate sdk g f =
    validate_match_options g (concat "tag " f.key) f.match_options
      (cost_and_usage_tag_match_options sdk)
