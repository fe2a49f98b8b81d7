-- ===== src/CostExplorer/Nodes.antt =====
-- The API rejects And and Or nodes with a single child: the expressions that the builders make have
-- none, however deep.
use awslib.CostExplorer.{
  Sdk, Expression, Expressions, Negated, expression, no_children, child, no_expression,
  one_expression, expressions,
}
use awslib.CostExplorer.Builders.{
  filter_by_dimension, filter_by_service, filter_by_tag, filter_by_tags,
}
use awslib.CostExplorer.Filters.{
  Filter, dimension_filter, tag_filter, cost_category_filter, by_tag, by_dimension, is_empty,
}
use awslib.CostExplorer.Filters.Dimension
use awslib.CostExplorer.Filters.Tag
use awslib.CostExplorer.Filters.CostCategory
use awslib.CostExplorer.Filters.Rows.{row_expression}
use awslib.CostExplorer.Operators.{present, joined, combine, and_all, negate, not_one}
use awslib.CostExplorer.Query.{CostQuery, build_filter}
use awslib.Dict.{Dict}
use awslib.Prelude.{
  Bool, true, false, ◌&&◌, Option, none, some, List, [], ◌∷◌, ◌++◌, map, All, All-append, String,
  if◌then◌else◌,
}

abbrev mutual
  -- No And or Or node below the expression has a single child.
  pub IsProper : Expression → Type 0
  IsProper (expression dimensions tags cost_categories and_children or_children negated) =
      IsNode and_children × (IsNode or_children × IsProperNot negated)

  pub IsNode : Expressions → Type 0
  IsNode no_children = Unit
  IsNode (child e no_children) = ⊥
  IsNode (child d (child e es)) = IsProper d × (IsProper e × AreProper es)

  pub AreProper : Expressions → Type 0
  AreProper no_children = Unit
  AreProper (child e es) = IsProper e × AreProper es

  pub IsProperNot : Negated → Type 0
  IsProperNot no_expression = Unit
  IsProperNot (one_expression e) = IsProper e

abbrev pub IsProperOption : Option Expression → Type 0
IsProperOption none = Unit
IsProperOption (some e) = IsProper e

expressions-AreProper : (es : List Expression) → All IsProper es → AreProper (expressions es)
expressions-AreProper [] proper = tt
expressions-AreProper (e ∷ es) proper = (proper.0, expressions-AreProper es proper.1)

present-IsProper :
    (exprs : List (Option Expression)) → All IsProperOption exprs → All IsProper (present exprs)
present-IsProper [] proper = tt
present-IsProper (none ∷ exprs) proper = present-IsProper exprs proper.1
present-IsProper (some e ∷ exprs) proper = (proper.0, present-IsProper exprs proper.1)

joined-IsProper :
    (and : Bool) (es : List Expression) → All IsProper es → IsProperOption (joined and es)
unfolding joined
joined-IsProper and [] proper = tt
joined-IsProper and (e ∷ []) proper = proper.0
joined-IsProper true (d ∷ (e ∷ es)) proper =
    ((proper.0, (proper.1.0, expressions-AreProper es proper.1.1)), (tt, tt))
joined-IsProper false (d ∷ (e ∷ es)) proper =
    (tt, ((proper.0, (proper.1.0, expressions-AreProper es proper.1.1)), tt))

-- And and Or of expressions without a node of a single child have none either.
pub combine-IsProper :
    (and : Bool) (exprs : List (Option Expression))
    → All IsProperOption exprs
    → IsProperOption (combine and exprs)
unfolding combine
combine-IsProper and exprs proper =
    joined-IsProper and (present exprs) (present-IsProper exprs proper)

negate-IsProper :
    (exclude : Bool) (e : Expression) → IsProper e → IsProperOption (negate exclude (some e))
unfolding negate not_one
negate-IsProper true e proper = (tt, (tt, proper))
negate-IsProper false e proper = proper

row-IsProper :
    (empty exclude : Bool) (e : Expression)
    → IsProper e
    → IsProperOption (if empty then none else negate exclude (some e))
row-IsProper true exclude e proper = tt
row-IsProper false exclude e proper = negate-IsProper exclude e proper

row_expression-IsProper : (f : Filter) → IsProperOption (row_expression f)
unfolding row_expression Dimension.expression_of Tag.expression_of CostCategory.expression_of
row_expression-IsProper (dimension_filter f) =
    row-IsProper (is_empty f.values) f.exclude _ (tt, (tt, tt))
row_expression-IsProper (tag_filter f) =
    row-IsProper (is_empty f.values && is_empty f.match_options) f.exclude _ (tt, (tt, tt))
row_expression-IsProper (cost_category_filter f) =
    row-IsProper (is_empty f.values && is_empty f.match_options) f.exclude _ (tt, (tt, tt))

rows-IsProper : (filters : List Filter) → All IsProperOption (map row_expression filters)
rows-IsProper [] = tt
rows-IsProper (f ∷ filters) = (row_expression-IsProper f, rows-IsProper filters)

tags-IsProper :
    (tags : Dict String (List String))
    → All IsProperOption (map (λ entry. filter_by_tag entry.0 entry.1) tags)
unfolding filter_by_tag row_expression
tags-IsProper [] = tt
tags-IsProper (entry ∷ tags) =
    (row_expression-IsProper (tag_filter (by_tag entry.0 entry.1)), tags-IsProper tags)

-- The filter of a query has no And or Or node with a single child, if the query's own expression
-- has none.
pub build_filter-IsProper :
    (sdk : Sdk) (q : CostQuery) → IsProperOption q.filter → IsProperOption (build_filter sdk q)
unfolding build_filter filter_by_tags filter_by_dimension row_expression and_all
build_filter-IsProper sdk q own =
    let services = dimension_filter (by_dimension sdk.dimension_service q.services) in
    combine-IsProper true
      ((filter_by_service sdk q.services ∷ (filter_by_tags q.tags ∷ map row_expression q.filters))
        ++ (q.filter ∷ []))
      (
        row_expression-IsProper services,
        (
          combine-IsProper true (map (λ entry. filter_by_tag entry.0 entry.1) q.tags)
              (tags-IsProper q.tags),
          All-append IsProperOption (map row_expression q.filters) (q.filter ∷ [])
              (rows-IsProper q.filters) (own, tt),
        ),
      )
