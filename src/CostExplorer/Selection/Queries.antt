-- ===== src/CostExplorer/Selection/Queries.antt =====
-- What a filter row and a whole query select, said without expressions.
use awslib.CostExplorer.{Sdk, Expression}
use awslib.CostExplorer.Builders.{
  filter_by_dimension, filter_by_service, filter_by_tag, filter_by_tags,
}
use awslib.CostExplorer.Filters.{
  Filter, dimension_filter, tag_filter, cost_category_filter, is_empty, by_tag, by_dimension,
}
use awslib.CostExplorer.Filters.Dimension
use awslib.CostExplorer.Filters.Tag
use awslib.CostExplorer.Filters.CostCategory
use awslib.CostExplorer.Filters.Rows.{row_expression}
use awslib.CostExplorer.Operators.{negate}
use awslib.CostExplorer.Query.{CostQuery, build_filter}
use awslib.CostExplorer.Selection.{Line, all, selects, selects-and_all, matches, selects-negate}
use awslib.Dict.{Dict}
use awslib.Prelude.{
  String, ◌≡◌, refl, sym, ◌∙◌, ap, Bool, true, false, ◌&&◌, not, none, some, List, [], ◌∷◌, ◌++◌,
  map, arith, if◌then◌else◌,
}

-- A row without values to match selects every line; another one selects the lines that its values
-- match, or the others if it excludes them.
abbrev pub row_selects : Line → Filter → Bool
row_selects l (dimension_filter f) =
    let found =
      l.dimension
        (record { key = f.dimension; values = f.values; match_options = f.match_options }) in
    if is_empty f.values then true else if f.exclude then not found else found
row_selects l (tag_filter f) =
    let found =
      l.tag (record { key = f.key; values = f.values; match_options = f.match_options }) in
    if is_empty f.values && is_empty f.match_options
    then true
    else if f.exclude
    then not found
    else found
row_selects l (cost_category_filter f) =
    let found =
      l.cost_category
        (record { key = f.key; values = f.values; match_options = f.match_options }) in
    if is_empty f.values && is_empty f.match_options
    then true
    else if f.exclude
    then not found
    else found

-- The rows of a query: its services, its tags, its filters.
abbrev pub rows : Sdk → CostQuery → List Filter
rows sdk q =
    dimension_filter (by_dimension sdk.dimension_service q.services)
    ∷ (map (λ entry. tag_filter (by_tag entry.0 entry.1)) q.tags ++ q.filters)

selects-row :
    (l : Line) (empty exclude : Bool) (e : Expression) (found : Bool)
    → matches l e ≡ found
    → selects l (if empty then none else negate exclude (some e))
      ≡ (if empty then true else if exclude then not found else found)
selects-row l true exclude e found same = refl
selects-row l false exclude e found same =
    selects-negate l exclude e ∙ ap (λ b. if exclude then not b else b) same

and_true : (b : Bool) → (b && true) ≡ b
and_true true = refl
and_true false = refl

selects-row_expression : (l : Line) (f : Filter) → selects l (row_expression f) ≡ row_selects l f
unfolding row_expression Dimension.expression_of Tag.expression_of CostCategory.expression_of
selects-row_expression l (dimension_filter f) =
    selects-row l (is_empty f.values) f.exclude _ _ (and_true _)
selects-row_expression l (tag_filter f) =
    selects-row l (is_empty f.values && is_empty f.match_options) f.exclude _ _ (and_true _)
selects-row_expression l (cost_category_filter f) =
    selects-row l (is_empty f.values && is_empty f.match_options) f.exclude _ _ (and_true _)

all-append :
    {A : Type 0} (p : A → Bool) (xs ys : List A) → all p (xs ++ ys) ≡ (all p xs && all p ys)
all-append p [] ys = refl
all-append p (x ∷ xs) ys = ground (arith, all-append p xs ys)

all-rows :
    (l : Line) (filters : List Filter)
    → all (selects l) (map row_expression filters) ≡ all (row_selects l) filters
all-rows l [] = refl
all-rows l (f ∷ filters) = λ i. selects-row_expression l f i && all-rows l filters i

all-tags :
    (l : Line) (tags : Dict String (List String))
    → all (selects l) (map (λ entry. filter_by_tag entry.0 entry.1) tags)
      ≡ all (row_selects l) (map (λ entry. tag_filter (by_tag entry.0 entry.1)) tags)
unfolding filter_by_tag row_expression Tag.expression_of
all-tags l [] = refl
all-tags l (entry ∷ tags) =
    λ i. selects-row_expression l (tag_filter (by_tag entry.0 entry.1)) i && all-tags l tags i

regroup : (s t m f : Bool) → (s && (t && (m && (f && true)))) ≡ ((s && (t && m)) && f)
regroup s t m f = ground arith

-- The filter of a query selects exactly the lines that each of its rows (the services, every tag,
-- every filter) selects and its own expression, when it has one, too.
pub selects-build_filter :
    (sdk : Sdk) (l : Line) (q : CostQuery)
    → selects l (build_filter sdk q) ≡ (all (row_selects l) (rows sdk q) && selects l q.filter)
unfolding build_filter filter_by_tags filter_by_dimension row_expression
selects-build_filter sdk l q =
    let services = by_dimension sdk.dimension_service q.services in
    let tags = map (λ entry. tag_filter (by_tag entry.0 entry.1)) q.tags in
    let row = all (row_selects l) in
    let exprs =
      filter_by_service sdk q.services ∷ (filter_by_tags q.tags ∷ map row_expression q.filters) in
    selects-and_all l (exprs ++ (q.filter ∷ []))
    ∙ ((λ i.
          selects-row_expression l (dimension_filter services) i
          && ((selects-and_all l (map (λ entry. filter_by_tag entry.0 entry.1) q.tags)
                  ∙ all-tags l q.tags)
                i
              && (all-append (selects l) (map row_expression q.filters) (q.filter ∷ [])
                    ∙ ap (λ b. b && (selects l q.filter && true)) (all-rows l q.filters))
                  i))
        ∙ (regroup (row_selects l (dimension_filter services)) (row tags) (row q.filters)
              (selects l q.filter)
            ∙ ap (λ b. (row_selects l (dimension_filter services) && b) && selects l q.filter)
                (sym (all-append (row_selects l) tags q.filters))))
