-- ===== src/Diff/Model.antt =====
-- The declarations of a manifest, the answers of the live catalog, and the entries of a diff.
-- (metadata/types.ts, metadata/diff_engine.ts)
use zero_datafabric.Common.{ℕ, String, Bool, Option, List}
use zero_datafabric.Diff.Engines.{EngineType, EngineCapability}

pub data ResourceType : Type 0 where
  enum sequence function procedure table view materialized_view unknown : ResourceType

pub record Column : Type 0 where
  pub name : String
  pub type_name : String
  pub length : Option ℕ

-- The fields of a resource that the comparison reads.
pub record Resource : Type 0 where
  pub kind : ResourceType
  pub name : String
  pub columns : List Column
  pub values : List String
  pub materialized : Bool

-- `physical` is the name that `physicalSchemaName` gives the schema in the workspace.
pub record Schema : Type 0 where
  pub name : String
  pub physical : String
  pub target_source : Option String
  pub resources : Option (List Resource)

pub record Downstream : Type 0 where
  pub target_type : String
  pub enabled : Bool

pub record Manifest : Type 0 where
  pub target_source : Option String
  pub schemas : List Schema
  pub relationships : List String
  pub extensions : Option (List String)
  pub downstream : List Downstream

pub record CatalogColumn : Type 0 where
  pub data_type : String
  pub udt_name : String
  pub character_maximum_length : Option ℕ

-- What the queries of the comparison answer, by physical schema and name.
pub record Catalog : Type 0 where
  pub schema_exists : String → Bool
  pub enum_labels : String → String → Option (List String)
  pub sequence_exists : String → String → Bool
  pub table_exists : String → String → Bool
  pub column_info : String → String → String → Option CatalogColumn
  pub view_exists : String → String → Bool
  pub function_exists : String → String → Bool
  pub live_tables : String → List String
  pub fabric_table : String → Option (List Column)
  pub live_extensions : List String
  pub downstream_registered : String → Bool

pub data Action : Type 0 where
  create_schema create_enum alter_enum_add_value register_fabric_enum create_sequence : Action
  create_table add_column alter_column_type create_view create_materialized_view : Action
  create_function create_procedure quarantine_table provision_relationship : Action
  provision_extensions provision_downstream : Action

pub data Risk : Type 0 where
  low high : Risk

-- What a diff is about: a name, a column of a table, a label of an enum, or a list of extensions.
pub data Subject : Type 0 where
  named : String → Subject
  of_column : String → Column → Subject
  of_label : String → String → Subject
  of_extensions : List String → Subject

pub record Diff : Type 0 where
  pub action : Action
  pub subject : Subject
  pub is_fabric_compensation : Bool
  pub risk : Option Risk

-- The arguments that the comparison passes to each resource.
pub record Target : Type 0 where
  pub schema_name : String
  pub engine_type : EngineType
  pub caps : EngineCapability
