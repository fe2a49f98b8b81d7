-- ===== src/CostExplorer/Filters/Rows.antt =====
-- service/costexplorer/filter.go: the interface Filter, by the type of the row, and a list of rows.
use awslib.CostExplorer.{Sdk, Expression}
use awslib.CostExplorer.Filters.{
  Filter, dimension_filter, tag_filter, cost_category_filter, CostQueryError,
}
use awslib.CostExplorer.Filters.Dimension
use awslib.CostExplorer.Filters.Tag
use awslib.CostExplorer.Filters.CostCategory
use awslib.CostExplorer.Operators.{and_all}
use awslib.Gocollection.{Gocollection}
use awslib.Prelude.{Option, List, map}

unfoldable pub row_expression : Filter → Option Expression
row_expression (dimension_filter f) = Dimension.expression_of f
row_expression (tag_filter f) = Tag.expression_of f
row_expression (cost_category_filter f) = CostCategory.expression_of f

unfoldable pub validate_row : Sdk → Gocollection → Filter → Option CostQueryError
validate_row sdk g (dimension_filter f) = Dimension.validate sdk g f
validate_row sdk g (tag_filter f) = Tag.validate sdk g f
validate_row sdk g (cost_category_filter f) = CostCategory.validate sdk g f

unfoldable pub filters_expression : List Filter → Option Expression
filters_expression filters = and_all (map row_expression filters)
