-- ===== src/CostExplorer/Requests.antt =====
-- service/costexplorer/repository.go: the calls. The API's client and the context are the record
-- Api, over a state of theirs; metrics are left out.
pub mod Totals
use awslib.CostExplorer.{Sdk, Expression}
use awslib.CostExplorer.Filters.{CostQueryError}
use awslib.CostExplorer.Groups.{GroupDefinition}
use awslib.CostExplorer.Query.{CostQuery, DateInterval, build_filter, time_period, validate}
use awslib.Errors.{Error, Result, ok, fail}
use awslib.Gocollection.{Gocollection}
use awslib.Paging.{Answer, Pager, follow}
use awslib.Prelude.Int.{ℤ}
use awslib.Prelude.{ℕ, String, Option, none, some, List, [], ◌++◌, ◌==◌, string_eq, if◌then◌else◌}

pub record CostAndUsage (A R : Type 0) : Type 0 where
  pub group_definitions : List GroupDefinition
  pub dimension_value_attributes : List A
  pub results_by_time : List R

-- awsce.GetCostAndUsageInput without its page token, which the loop sets per page
pub record GetCostAndUsageInput : Type 0 where
  pub granularity : String
  pub metrics : List String
  pub time_period : DateInterval
  pub group_by : List GroupDefinition
  pub filter : Option Expression
  pub billing_view_arn : Option String

pub record GetCostAndUsageOutput (A R : Type 0) : Type 0 where
  pub group_definitions : List GroupDefinition
  pub dimension_value_attributes : List A
  pub results_by_time : List R
  pub next_page_token : Option String

pub record GetDimensionValuesOutput (A : Type 0) : Type 0 where
  pub dimension_values : List A
  pub next_page_token : Option String

-- The client's calls, each at the page token it is given; Context.Done; errors.New; the errors of
-- the checks, with their texts.
pub record Api (S A R D F O : Type 0) : Type 0 where
  pub done : S → Option Error
  pub cost_and_usage :
      GetCostAndUsageInput → Option String → S → Result (GetCostAndUsageOutput A R) × S
  pub dimension_values : D → Option String → S → Result (GetDimensionValuesOutput A) × S
  pub cost_forecast : F → S → Result O × S
  pub wrap : Error → Error
  pub errorf : CostQueryError → Error
  pub format : ℤ → String → String

module _ {S A R D F O : Type 0} (api : Api S A R D F O) where
  abbrev pub no_costs : CostAndUsage A R
  no_costs = record {
    group_definitions = [];
    dimension_value_attributes = [];
    results_by_time = [];
  }

  -- The groupings of a page replace those before, its results join them.
  unfoldable pub add_page : CostAndUsage A R → GetCostAndUsageOutput A R → CostAndUsage A R
  add_page result output = record {
    group_definitions = output.group_definitions;
    dimension_value_attributes =
        result.dimension_value_attributes ++ output.dimension_value_attributes;
    results_by_time = result.results_by_time ++ output.results_by_time;
  }

  abbrev pub cost_pager :
      GetCostAndUsageInput → Pager S String (GetCostAndUsageOutput A R) (CostAndUsage A R)
  cost_pager query = record {
    done = api.done;
    call = api.cost_and_usage query;
    add = add_page;
    next = λ output. output.next_page_token;
    wrap = api.wrap;
  }

  -- The number bounds the pages; the token is the query's NextPageToken.
  unfoldable pub get_cost_and_usage :
      ℕ → GetCostAndUsageInput → Option String → S → Option (Answer (CostAndUsage A R)) × S
  get_cost_and_usage fuel query token s = follow (cost_pager query) fuel token no_costs s

  abbrev pub dimension_pager : D → Pager S String (GetDimensionValuesOutput A) (List A)
  dimension_pager query = record {
    done = api.done;
    call = api.dimension_values query;
    add = λ result output. result ++ output.dimension_values;
    next = λ output. output.next_page_token;
    wrap = api.wrap;
  }

  unfoldable pub get_dimension_values : ℕ → D → Option String → S → Option (Answer (List A)) × S
  get_dimension_values fuel query token s = follow (dimension_pager query) fuel token [] s

  unfoldable pub cost_and_usage_input : Sdk → CostQuery → GetCostAndUsageInput
  cost_and_usage_input sdk q = record {
    granularity = q.granularity;
    metrics = q.metrics;
    time_period = time_period sdk api.format q;
    group_by = q.group_by;
    filter = build_filter sdk q;
    billing_view_arn = if q.billing_view_arn == "" then none else some q.billing_view_arn;
  }

  unfoldable pub get_cost_and_usage_by_query :
      Sdk → Gocollection → ℕ → CostQuery → S → Option (Answer (CostAndUsage A R)) × S
  get_cost_and_usage_by_query sdk g fuel q s = elim (validate sdk g q) [
    | some e ↦ (some (none, some (api.errorf e)), s)
    | none ↦ get_cost_and_usage fuel (cost_and_usage_input sdk q) none s
  ]

  unfoldable pub get_cost_and_usage_by_period :
      Sdk
      → Gocollection
      → ℕ
      → ℤ
      → ℤ
      → String
      → List String
      → List GroupDefinition
      → S
      → Option (Answer (CostAndUsage A R)) × S
  get_cost_and_usage_by_period sdk g fuel start end granularity cost_metrics group_by s =
      get_cost_and_usage_by_query sdk g fuel
        (record {
          start = start;
          end = end;
          granularity = granularity;
          metrics = cost_metrics;
          services = [];
          tags = [];
          filters = [];
          filter = none;
          group_by = group_by;
          billing_view_arn = "";
        })
        s

  abbrev pub forecast : Result O → Answer O
  forecast (ok output) = (some output, none)
  forecast (fail e) = (none, some (api.wrap e))

  unfoldable pub get_cost_forecast : F → S → Answer O × S
  get_cost_forecast query s =
      (forecast (api.cost_forecast query s).0, (api.cost_forecast query s).1)
