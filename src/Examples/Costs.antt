-- ===== src/Examples/Costs.antt =====
-- The theorems on cost queries at one query, and an API of two pages.
use awslib.CostExplorer.{Sdk, Expression, dimensions_expression}
use awslib.CostExplorer.Filters.{DimensionFilter, dimension_filter}
use awslib.CostExplorer.Nodes.{IsProperOption, build_filter-IsProper}
use awslib.CostExplorer.Operators.{or_all}
use awslib.CostExplorer.Query.{CostQuery, build_filter, validate}
use awslib.CostExplorer.Requests.{
  Api, CostAndUsage, GetCostAndUsageOutput, cost_pager, cost_and_usage_input,
  get_cost_and_usage_by_query,
}
use awslib.CostExplorer.Requests.Totals.{
  get_cost_and_usage_by_query-Pages, get_cost_and_usage_by_query_refused,
}
use awslib.CostExplorer.Selection.{Line, all, selects, selects-or_all, picks}
use awslib.CostExplorer.Selection.Queries.{row_selects, rows, selects-build_filter}
use awslib.CostExplorer.Validity.{IsValid, validate_iff}
use awslib.Errors.{Error, ok}
use awslib.Gocollection.{plain}
use awslib.Paging.Runs.{Pages, last, more}
use awslib.Prelude.Int.{pos}
use awslib.Prelude.{
  ℕ, suc, String, ◌≡◌, ◌↔◌, refl, true, false, ◌&&◌, Option, none, some, [], ◌∷◌, any, ◌==◌,
  string_eq, arith,
}

abbrev sdk : Sdk
sdk = record {
  dimension_service = "SERVICE";
  dimension_linked_account = "LINKED_ACCOUNT";
  dimension_region = "REGION";
  dimension_az = "AZ";
  dimension_instance_type = "INSTANCE_TYPE";
  dimension_instance_type_family = "INSTANCE_TYPE_FAMILY";
  dimension_usage_type = "USAGE_TYPE";
  dimension_usage_type_group = "USAGE_TYPE_GROUP";
  dimension_record_type = "RECORD_TYPE";
  dimension_purchase_type = "PURCHASE_TYPE";
  dimension_operation = "OPERATION";
  dimension_resource_id = "RESOURCE_ID";
  dimension_platform = "PLATFORM";
  dimension_operating_system = "OPERATING_SYSTEM";
  dimension_tenancy = "TENANCY";
  dimension_database_engine = "DATABASE_ENGINE";
  dimension_deployment_option = "DEPLOYMENT_OPTION";
  dimension_cache_engine = "CACHE_ENGINE";
  dimension_billing_entity = "BILLING_ENTITY";
  dimension_legal_entity_name = "LEGAL_ENTITY_NAME";
  dimension_invoicing_entity = "INVOICING_ENTITY";
  dimension_scope = "SCOPE";
  dimension_payment_option = "PAYMENT_OPTION";
  dimension_savings_plans_type = "SAVINGS_PLANS_TYPE";
  dimension_savings_plan_arn = "SAVINGS_PLAN_ARN";
  dimension_reservation_id = "RESERVATION_ID";
  dimension_subscription_id = "SUBSCRIPTION_ID";
  match_option_equals = "EQUALS";
  match_option_absent = "ABSENT";
  match_option_case_sensitive = "CASE_SENSITIVE";
  group_definition_type_dimension = "DIMENSION";
  group_definition_type_tag = "TAG";
  group_definition_type_cost_category = "COST_CATEGORY";
  granularity_hourly = "HOURLY";
}

abbrev regions : DimensionFilter
regions = record {
  dimension = "REGION";
  values = "eu-west-1" ∷ [];
  match_options = "EQUALS" ∷ [];
  exclude = true;
}

abbrev query : CostQuery
query = record {
  start = pos 10;
  end = pos 20;
  granularity = "DAILY";
  metrics = "UnblendedCost" ∷ [];
  services = "AmazonEC2" ∷ [];
  tags = ("Team", "core" ∷ []) ∷ [];
  filters = dimension_filter regions ∷ [];
  filter = none;
  group_by = record { kind = "TAG"; key = "Team" } ∷ [];
  billing_view_arn = "";
}

-- A line of the service EC2, of the team, outside eu-west-1.
abbrev ec2_line : Line
ec2_line = record {
  dimension = λ v. v.key == "SERVICE";
  tag = λ v. v.key == "Team";
  cost_category = λ v. false;
}

query-IsValid : IsValid sdk query
query-IsValid = (
  ((λ e. omega (arith, e)), (λ e. omega (arith, e))),
  (omega arith, ((λ e. cc), (omega arith, (((λ e. cc), tt), ((refl, tt), tt))))),
)

validate_iff_example : (validate sdk plain query ≡ none) ↔ IsValid sdk query
validate_iff_example = validate_iff sdk plain query

selects-build_filter_example :
    selects ec2_line (build_filter sdk query)
    ≡ (all (row_selects ec2_line) (rows sdk query) && true)
selects-build_filter_example = selects-build_filter sdk ec2_line query

build_filter-IsProper_example : IsProperOption (build_filter sdk query)
build_filter-IsProper_example = build_filter-IsProper sdk query tt

abbrev service_expression : Expression
service_expression =
    dimensions_expression (record { key = "SERVICE"; values = []; match_options = [] })

selects-or_all_example :
    selects ec2_line (or_all (none ∷ (some service_expression ∷ [])))
    ≡ any (picks ec2_line) (none ∷ (some service_expression ∷ []))
selects-or_all_example = selects-or_all ec2_line (none ∷ (some service_expression ∷ [])) refl

-- Two pages: the first has the token "2".
abbrev page : Option String → GetCostAndUsageOutput ℕ ℕ
page none = record {
  group_definitions = [];
  dimension_value_attributes = 1 ∷ [];
  results_by_time = 10 ∷ [];
  next_page_token = some "2";
}
page (some token) = record {
  group_definitions = [];
  dimension_value_attributes = [];
  results_by_time = 20 ∷ [];
  next_page_token = none;
}

abbrev api : Api ℕ ℕ ℕ String String String
api = record {
  done = λ calls. none;
  cost_and_usage = λ input token calls. (ok (page token), suc calls);
  dimension_values = λ input token calls.
      (ok (record { dimension_values = 5 ∷ []; next_page_token = none }), suc calls);
  cost_forecast = λ input calls. (ok input, suc calls);
  wrap = λ e. e;
  errorf = λ e. record { message = "bad query" };
  format = λ t layout. layout;
}

two-Pages :
    Pages
      (cost_pager api (cost_and_usage_input api sdk query))
      none
      0
      (page none ∷ (page (some "2") ∷ []))
      2
two-Pages =
    more none 0 1 2 (page none) "2" (page (some "2") ∷ []) refl refl refl
      (last (some "2") 1 2 (page (some "2")) refl refl refl)

get_cost_and_usage_by_query-Pages_example :
    (result : CostAndUsage ℕ ℕ) × (get_cost_and_usage_by_query api sdk plain 2 query 0
      ≡ (some (some result, none), 2))
    × (result.dimension_value_attributes ≡ 1 ∷ [])
    × (result.results_by_time ≡ 10 ∷ (20 ∷ []))
get_cost_and_usage_by_query-Pages_example =
    get_cost_and_usage_by_query-Pages api sdk plain query 2 0 2 (page none ∷ (page (some "2") ∷ []))
      query-IsValid two-Pages (omega arith)

abbrev no_metric : CostQuery
no_metric = record query { metrics = [] }

no_metric_invalid : IsValid sdk no_metric → ⊥
no_metric_invalid valid = valid.1.1.0 refl

get_cost_and_usage_by_query_refused_example :
    (e : Error) × (get_cost_and_usage_by_query api sdk plain 5 no_metric 0
      ≡ (some (none, some e), 0))
get_cost_and_usage_by_query_refused_example =
    get_cost_and_usage_by_query_refused api sdk plain no_metric 5 0 no_metric_invalid
