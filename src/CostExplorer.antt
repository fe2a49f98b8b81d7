-- ===== src/CostExplorer.antt =====
-- service/costexplorer: filters, groupings, queries and the paged calls of the Cost Explorer
-- repository. This file holds the data that the code takes from the SDK: its structs, and its
-- constants as a parameter, since their texts are the SDK's.
pub mod Operators
pub mod Filters
pub mod Builders
pub mod Groups
pub mod Query
pub mod Requests
pub mod Selection
pub mod Nodes
pub mod Validity
use awslib.Prelude.{String, Option, none, some, List, [], ◌∷◌}

-- types.Dimension..., types.MatchOption..., types.GroupDefinitionType... and types.Granularity...
pub record Sdk : Type 0 where
  pub dimension_service : String
  pub dimension_linked_account : String
  pub dimension_region : String
  pub dimension_az : String
  pub dimension_instance_type : String
  pub dimension_instance_type_family : String
  pub dimension_usage_type : String
  pub dimension_usage_type_group : String
  pub dimension_record_type : String
  pub dimension_purchase_type : String
  pub dimension_operation : String
  pub dimension_resource_id : String
  pub dimension_platform : String
  pub dimension_operating_system : String
  pub dimension_tenancy : String
  pub dimension_database_engine : String
  pub dimension_deployment_option : String
  pub dimension_cache_engine : String
  pub dimension_billing_entity : String
  pub dimension_legal_entity_name : String
  pub dimension_invoicing_entity : String
  pub dimension_scope : String
  pub dimension_payment_option : String
  pub dimension_savings_plans_type : String
  pub dimension_savings_plan_arn : String
  pub dimension_reservation_id : String
  pub dimension_subscription_id : String
  pub match_option_equals : String
  pub match_option_absent : String
  pub match_option_case_sensitive : String
  pub group_definition_type_dimension : String
  pub group_definition_type_tag : String
  pub group_definition_type_cost_category : String
  pub granularity_hourly : String

-- types.DimensionValues, types.TagValues and types.CostCategoryValues, whose fields are the same
pub record Values : Type 0 where
  pub key : String
  pub values : List String
  pub match_options : List String

-- types.Expression: a field that is not set is `none`, `no_children` or `no_expression`.
mutual
  pub data Expression : Type 0 where
    expression :
        (dimensions tags cost_categories : Option Values) (and_children or_children : Expressions)
        → (negated : Negated) → Expression

  pub data Expressions : Type 0 where
    no_children : Expressions
    child : Expression → Expressions → Expressions

  pub data Negated : Type 0 where
    no_expression : Negated
    one_expression : Expression → Negated

abbrev pub expressions : List Expression → Expressions
expressions [] = no_children
expressions (e ∷ es) = child e (expressions es)

abbrev pub dimensions_expression : Values → Expression
dimensions_expression v = expression (some v) none none no_children no_children no_expression

abbrev pub tags_expression : Values → Expression
tags_expression v = expression none (some v) none no_children no_children no_expression

abbrev pub cost_categories_expression : Values → Expression
cost_categories_expression v = expression none none (some v) no_children no_children no_expression

abbrev pub and_expression : List Expression → Expression
and_expression es = expression none none none (expressions es) no_children no_expression

abbrev pub or_expression : List Expression → Expression
or_expression es = expression none none none no_children (expressions es) no_expression

abbrev pub not_expression : Expression → Expression
not_expression e = expression none none none no_children no_children (one_expression e)
