-- ===== src/CostExplorer/Builders.antt =====
-- service/costexplorer/filter.go: the one-call builders of an expression.
use awslib.CostExplorer.{Sdk, Expression}
use awslib.CostExplorer.Filters.{by_dimension, by_tag, by_cost_category}
use awslib.CostExplorer.Filters.Dimension
use awslib.CostExplorer.Filters.Tag
use awslib.CostExplorer.Filters.CostCategory
use awslib.CostExplorer.Operators.{and_all}
use awslib.Dict.{Dict}
use awslib.Prelude.{String, Option, List, [], map}

-- FilterByDimension
unfoldable pub filter_by_dimension : String → List String → Option Expression
filter_by_dimension dimension values = Dimension.expression_of (by_dimension dimension values)

module _ (sdk : Sdk) where
  abbrev pub filter_by_service : List String → Option Expression
  filter_by_service = filter_by_dimension sdk.dimension_service

  abbrev pub filter_by_linked_account : List String → Option Expression
  filter_by_linked_account = filter_by_dimension sdk.dimension_linked_account

  abbrev pub filter_by_region : List String → Option Expression
  filter_by_region = filter_by_dimension sdk.dimension_region

  abbrev pub filter_by_availability_zone : List String → Option Expression
  filter_by_availability_zone = filter_by_dimension sdk.dimension_az

  abbrev pub filter_by_instance_type : List String → Option Expression
  filter_by_instance_type = filter_by_dimension sdk.dimension_instance_type

  abbrev pub filter_by_instance_type_family : List String → Option Expression
  filter_by_instance_type_family = filter_by_dimension sdk.dimension_instance_type_family

  abbrev pub filter_by_usage_type : List String → Option Expression
  filter_by_usage_type = filter_by_dimension sdk.dimension_usage_type

  abbrev pub filter_by_usage_type_group : List String → Option Expression
  filter_by_usage_type_group = filter_by_dimension sdk.dimension_usage_type_group

  abbrev pub filter_by_charge_type : List String → Option Expression
  filter_by_charge_type = filter_by_dimension sdk.dimension_record_type

  abbrev pub filter_by_purchase_type : List String → Option Expression
  filter_by_purchase_type = filter_by_dimension sdk.dimension_purchase_type

  abbrev pub filter_by_operation : List String → Option Expression
  filter_by_operation = filter_by_dimension sdk.dimension_operation

  abbrev pub filter_by_resource_id : List String → Option Expression
  filter_by_resource_id = filter_by_dimension sdk.dimension_resource_id

  abbrev pub filter_by_platform : List String → Option Expression
  filter_by_platform = filter_by_dimension sdk.dimension_platform

  abbrev pub filter_by_operating_system : List String → Option Expression
  filter_by_operating_system = filter_by_dimension sdk.dimension_operating_system

  abbrev pub filter_by_tenancy : List String → Option Expression
  filter_by_tenancy = filter_by_dimension sdk.dimension_tenancy

  abbrev pub filter_by_database_engine : List String → Option Expression
  filter_by_database_engine = filter_by_dimension sdk.dimension_database_engine

  abbrev pub filter_by_deployment_option : List String → Option Expression
  filter_by_deployment_option = filter_by_dimension sdk.dimension_deployment_option

  abbrev pub filter_by_cache_engine : List String → Option Expression
  filter_by_cache_engine = filter_by_dimension sdk.dimension_cache_engine

  abbrev pub filter_by_billing_entity : List String → Option Expression
  filter_by_billing_entity = filter_by_dimension sdk.dimension_billing_entity

  abbrev pub filter_by_legal_entity : List String → Option Expression
  filter_by_legal_entity = filter_by_dimension sdk.dimension_legal_entity_name

  abbrev pub filter_by_invoicing_entity : List String → Option Expression
  filter_by_invoicing_entity = filter_by_dimension sdk.dimension_invoicing_entity

  abbrev pub filter_by_scope : List String → Option Expression
  filter_by_scope = filter_by_dimension sdk.dimension_scope

  abbrev pub filter_by_payment_option : List String → Option Expression
  filter_by_payment_option = filter_by_dimension sdk.dimension_payment_option

  abbrev pub filter_by_savings_plans_type : List String → Option Expression
  filter_by_savings_plans_type = filter_by_dimension sdk.dimension_savings_plans_type

  abbrev pub filter_by_savings_plan_arn : List String → Option Expression
  filter_by_savings_plan_arn = filter_by_dimension sdk.dimension_savings_plan_arn

  abbrev pub filter_by_reservation_id : List String → Option Expression
  filter_by_reservation_id = filter_by_dimension sdk.dimension_reservation_id

  abbrev pub filter_by_subscription_id : List String → Option Expression
  filter_by_subscription_id = filter_by_dimension sdk.dimension_subscription_id

  -- FilterByTagAbsent and FilterByTagPresent
  unfoldable pub filter_by_tag_absent : String → Option Expression
  filter_by_tag_absent key = Tag.expression_of (Tag.absent sdk (by_tag key []))

  unfoldable pub filter_by_tag_present : String → Option Expression
  filter_by_tag_present key = Tag.expression_of (Tag.present_key sdk (by_tag key []))

  unfoldable pub filter_by_cost_category_absent : String → Option Expression
  filter_by_cost_category_absent key =
      CostCategory.expression_of (CostCategory.absent sdk (by_cost_category key []))

  unfoldable pub filter_by_cost_category_present : String → Option Expression
  filter_by_cost_category_present key =
      CostCategory.expression_of (CostCategory.present_key sdk (by_cost_category key []))

unfoldable pub filter_by_tag : String → List String → Option Expression
filter_by_tag key values = Tag.expression_of (by_tag key values)

-- The maps are ranged over in the order of their entries here, which may be any.
unfoldable pub filter_by_tags : Dict String (List String) → Option Expression
filter_by_tags tags = and_all (map (λ entry. filter_by_tag entry.0 entry.1) tags)

unfoldable pub filter_by_cost_category : String → List String → Option Expression
filter_by_cost_category key values = CostCategory.expression_of (by_cost_category key values)

unfoldable pub filter_by_cost_categories : Dict String (List String) → Option Expression
filter_by_cost_categories categories =
    and_all (map (λ entry. filter_by_cost_category entry.0 entry.1) categories)
