-- ===== src/Diff/Engines.antt =====
-- backend/src/modules/metadata/engine_capabilities.ts: what each engine can do, and the engine of a
-- registered source.
use zero_datafabric.Common.{
  String, Bool, true, false, Option, none, some, if◌then◌else◌, text_eq, upper, lower, includes,
  ◌||◌,
}

pub data EngineType : Type 0 where
  postgres mysql mongodb elasticsearch oracle snowflake : EngineType

pub data SequenceEmulation : Type 0 where
  native auto_increment identity fabric : SequenceEmulation

pub record EngineCapability : Type 0 where
  pub supports_sequences : Bool
  pub supports_functions : Bool
  pub supports_views : Bool
  pub supports_materialized_views : Bool
  pub supports_enums : Bool
  pub supports_schemas : Bool
  pub supports_triggers : Bool
  pub supports_rls : Bool
  pub catalog_introspection : Bool
  pub sequence_emulation : SequenceEmulation

-- `ENGINE_CAPABILITIES`
abbrev pub engine_capabilities : EngineType → EngineCapability
engine_capabilities postgres = record {
  supports_sequences = true;
  supports_functions = true;
  supports_views = true;
  supports_materialized_views = true;
  supports_enums = true;
  supports_schemas = true;
  supports_triggers = true;
  supports_rls = true;
  catalog_introspection = true;
  sequence_emulation = native;
}
engine_capabilities mysql = record {
  supports_sequences = false;
  supports_functions = true;
  supports_views = true;
  supports_materialized_views = false;
  supports_enums = false;
  supports_schemas = true;
  supports_triggers = true;
  supports_rls = false;
  catalog_introspection = true;
  sequence_emulation = auto_increment;
}
engine_capabilities oracle = record {
  supports_sequences = true;
  supports_functions = true;
  supports_views = true;
  supports_materialized_views = true;
  supports_enums = false;
  supports_schemas = true;
  supports_triggers = true;
  supports_rls = true;
  catalog_introspection = true;
  sequence_emulation = native;
}
engine_capabilities snowflake = record {
  supports_sequences = true;
  supports_functions = true;
  supports_views = true;
  supports_materialized_views = false;
  supports_enums = false;
  supports_schemas = true;
  supports_triggers = false;
  supports_rls = false;
  catalog_introspection = true;
  sequence_emulation = identity;
}
engine_capabilities _ = record {
  supports_sequences = false;
  supports_functions = false;
  supports_views = false;
  supports_materialized_views = false;
  supports_enums = false;
  supports_schemas = false;
  supports_triggers = false;
  supports_rls = false;
  catalog_introspection = false;
  sequence_emulation = fabric;
}

-- `normalizeEngineType`, and the look-up of the result among the keys of the table.
unfoldable pub normalize_engine_type : String → Option EngineType
unfolding upper
normalize_engine_type type_name =
    let t = upper type_name in
    if text_eq t "POSTGRESQL" || text_eq t "POSTGRES"
    then some postgres
    else if text_eq t "MONGO" || text_eq t "MONGODB"
    then some mongodb
    else if text_eq t "ELASTIC" || text_eq t "ES" || text_eq t "ELASTICSEARCH"
    then some elasticsearch
    else if text_eq t "ORACLEDB" || text_eq t "ORACLE"
    then some oracle
    else if text_eq t "MARIADB" || text_eq t "MYSQL"
    then some mysql
    else if text_eq t "SNOWFLAKE"
    then some snowflake
    else none

-- The type column of a registered source, by its name.
abbrev pub Registry : Type 0
Registry = String → Option String

abbrev pub engine_of_raw : Option String → Option EngineType
engine_of_raw none = none
engine_of_raw (some raw) = normalize_engine_type raw

-- `none` where an error is thrown.
unfoldable pub resolve_engine_type : Registry → String → Option EngineType
unfolding normalize_engine_type
resolve_engine_type sources name =
    if text_eq name "Fabric_Hub_Postgres" then some postgres else engine_of_raw (sources name)

unfoldable pub infer_engine_type : String → EngineType
unfolding lower includes
infer_engine_type source_name =
    let l = lower source_name in
    if includes "mongo" l
    then mongodb
    else if includes "mysql" l
    then mysql
    else if includes "elastic" l || includes "opensearch" l
    then elasticsearch
    else if includes "oracle" l
    then oracle
    else if includes "snowflake" l
    then snowflake
    else postgres

abbrev pub or_inferred : Option EngineType → String → EngineType
or_inferred none name = infer_engine_type name
or_inferred (some e) name = e

-- The registered engine, or a guess from the name where the source cannot be resolved.
unfoldable pub engine_for : Registry → String → EngineType
unfolding resolve_engine_type infer_engine_type
engine_for sources name = or_inferred (resolve_engine_type sources name) name
