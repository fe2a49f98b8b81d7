-- ===== src/CostExplorer/Query.antt =====
-- service/costexplorer/repository.go: CostQuery, its filter, its period and its checks. An instant
-- is its distance from time.Time's zero; how time.Time formats one is a parameter.
use awslib.CostExplorer.{Sdk, Expression}
use awslib.CostExplorer.Builders.{filter_by_service, filter_by_tags}
use awslib.CostExplorer.Filters.{
  Filter, CostQueryError, needs_start_and_end, end_not_after_start, needs_metric,
  too_many_groupings, empty_grouping_key, is_empty,
}
use awslib.CostExplorer.Filters.Rows.{row_expression, validate_row}
use awslib.CostExplorer.Groups.{GroupDefinition, max_group_by}
use awslib.CostExplorer.Operators.{and_all}
use awslib.Dict.{Dict}
use awslib.Gocollection.{Gocollection}
use awslib.Prelude.Int.{ℤ, pos, ltb_ℤ, leb_ℤ}
use awslib.Prelude.{
  String, Bool, ◌&&◌, ◌||◌, not, Option, none, some, List, [], ◌∷◌, ◌++◌, map, ltb, length, ◌==◌,
  string_eq, if◌then◌else◌,
}

pub record CostQuery : Type 0 where
  pub start : ℤ
  pub end : ℤ
  pub granularity : String
  pub metrics : List String
  pub services : List String
  pub tags : Dict String (List String)
  pub filters : List Filter
  pub filter : Option Expression
  pub group_by : List GroupDefinition
  pub billing_view_arn : String

pub record DateInterval : Type 0 where
  pub start : String
  pub end : String

abbrev pub date_layout : String
date_layout = "2006-01-02"

abbrev pub date_time_layout : String
date_time_layout = "2006-01-02T15:04:05Z"

unfoldable pub build_filter : Sdk → CostQuery → Option Expression
build_filter sdk q = and_all (
    (filter_by_service sdk q.services ∷ (filter_by_tags q.tags ∷ map row_expression q.filters))
    ++ (q.filter ∷ []))

-- `format` is Time.UTC().Format.
unfoldable pub time_period : Sdk → (ℤ → String → String) → CostQuery → DateInterval
time_period sdk format q =
    let layout =
      if q.granularity == sdk.granularity_hourly then date_time_layout else date_layout in
    record { start = format q.start layout; end = format q.end layout }

-- Time.IsZero
abbrev pub is_zero : ℤ → Bool
is_zero t = leb_ℤ t (pos 0) && leb_ℤ (pos 0) t

-- the loops of Validate
unfoldable pub validate_groups : List GroupDefinition → Option CostQueryError
validate_groups [] = none
validate_groups (group ∷ groups) =
    if group.key == "" then some (empty_grouping_key group.kind) else validate_groups groups

unfoldable pub validate_rows : Sdk → Gocollection → List Filter → Option CostQueryError
validate_rows sdk g [] = none
validate_rows sdk g (f ∷ filters) = elim (validate_row sdk g f) [
  | some e ↦ some e
  | none ↦ validate_rows sdk g filters
]

unfoldable pub validate : Sdk → Gocollection → CostQuery → Option CostQueryError
validate sdk g q =
    if is_zero q.start || is_zero q.end
    then some needs_start_and_end
    else if not (ltb_ℤ q.start q.end)
    then some end_not_after_start
    else if is_empty q.metrics
    then some needs_metric
    else if ltb max_group_by (length q.group_by)
    then some (too_many_groupings (length q.group_by))
    else elim (validate_groups q.group_by) [
      | some e ↦ some e
      | none ↦ validate_rows sdk g q.filters
    ]
