-- ===== src/CostExplorer/Groups.antt =====
-- service/costexplorer/filter.go: the GroupBy builders.
use awslib.CostExplorer.{Sdk}
use awslib.Prelude.{ℕ, String, List, map}

-- types.GroupDefinition; a key that is not set reads as the empty text.
pub record GroupDefinition : Type 0 where
  pub kind : String
  pub key : String

-- MaxGroupBy
abbrev pub max_group_by : ℕ
max_group_by = 2

module _ (sdk : Sdk) where
  abbrev pub group_by_dimension : String → GroupDefinition
  group_by_dimension dimension = record {
    kind = sdk.group_definition_type_dimension;
    key = dimension;
  }

  abbrev pub group_by_service : GroupDefinition
  group_by_service = group_by_dimension sdk.dimension_service

  abbrev pub group_by_linked_account : GroupDefinition
  group_by_linked_account = group_by_dimension sdk.dimension_linked_account

  abbrev pub group_by_region : GroupDefinition
  group_by_region = group_by_dimension sdk.dimension_region

  abbrev pub group_by_instance_type : GroupDefinition
  group_by_instance_type = group_by_dimension sdk.dimension_instance_type

  abbrev pub group_by_usage_type : GroupDefinition
  group_by_usage_type = group_by_dimension sdk.dimension_usage_type

  abbrev pub group_by_charge_type : GroupDefinition
  group_by_charge_type = group_by_dimension sdk.dimension_record_type

  abbrev pub group_by_purchase_type : GroupDefinition
  group_by_purchase_type = group_by_dimension sdk.dimension_purchase_type

  abbrev pub group_by_operation : GroupDefinition
  group_by_operation = group_by_dimension sdk.dimension_operation

  unfoldable pub group_by_tag : String → GroupDefinition
  group_by_tag key = record { kind = sdk.group_definition_type_tag; key = key }

  unfoldable pub group_by_tags : List String → List GroupDefinition
  group_by_tags keys = map group_by_tag keys

  unfoldable pub group_by_cost_category : String → GroupDefinition
  group_by_cost_category key = record { kind = sdk.group_definition_type_cost_category; key = key }

  unfoldable pub group_by_cost_categories : List String → List GroupDefinition
  group_by_cost_categories keys = map group_by_cost_category keys
