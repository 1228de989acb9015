-- ===== src/Diff/Tests.antt =====
-- Runs of the comparison of a small manifest. (diff_engine.ts)
use zero_datafabric.Common.{
  ◌≡◌, refl, ◌↔◌, String, true, false, none, some, [], ◌∷◌, text_eq, if◌then◌else◌, All, In, upper,
  lower, has_prefix, includes,
}
use zero_datafabric.Diff.Engines.{
  postgres, mongodb, engine_capabilities, Registry, normalize_engine_type, resolve_engine_type,
  infer_engine_type, engine_for,
}
use zero_datafabric.Diff.Model.{
  enum, table, view, Column, Resource, Schema, Manifest, Catalog, Target, alter_column_type,
  of_column, high,
}
use zero_datafabric.Diff.Columns.{
  normalize_catalog_type, normalize_declared_type, live_type_changed, stored_type_changed,
  live_columns, stored_columns, find_column, diff_table, entry,
}
use zero_datafabric.Diff.Resources.{
  missing_labels, diff_enum, diff_sequence, diff_view, diff_function, process_resource_diff,
}
use zero_datafabric.Diff.Compare.{
  insert_resource, sort_resources, process_all, schema_diff, quarantine, detect_retired, target_of,
  compare_schema, compare_schemas, extension_diff, downstream_diff, compare_manifest,
}
use zero_datafabric.Diff.Entries.{Entry, is_lacking, process_resource_diff-Entry}
use zero_datafabric.Diff.Order.{Staged, process_all-sort_resources}
use zero_datafabric.Diff.Quarantine.{Retired, compare_manifest-Retired}
use zero_datafabric.Diff.Converge.{DistinctColumns, diff_table-stored}

-- All of the comparison, for tests.
comparing : Unit {0}
unfolding compare_manifest compare_schemas extension_diff downstream_diff compare_schema schema_diff
    process_all sort_resources insert_resource detect_retired target_of engine_for
    resolve_engine_type infer_engine_type normalize_engine_type process_resource_diff diff_enum
    diff_sequence diff_table diff_view diff_function missing_labels live_columns stored_columns
    find_column live_type_changed stored_type_changed normalize_catalog_type normalize_declared_type
    upper lower has_prefix includes
comparing = tt

abbrev id_column : Column
id_column = record { name = "id"; type_name = "INT"; length = none }

abbrev name_column : Column
name_column = record { name = "name"; type_name = "VARCHAR"; length = some 40 }

abbrev orders : Resource
orders = record {
  kind = table;
  name = "orders";
  columns = id_column ∷ name_column ∷ [];
  values = [];
  materialized = false;
}

abbrev colours : Resource
colours = record {
  kind = enum;
  name = "colour";
  columns = [];
  values = "red" ∷ "blue" ∷ [];
  materialized = false;
}

abbrev totals : Resource
totals = record { kind = view; name = "totals"; columns = []; values = []; materialized = true }

abbrev sales : Schema
sales = record {
  name = "sales";
  physical = "tenant_t_sales";
  target_source = none;
  resources = some (totals ∷ orders ∷ colours ∷ []);
}

abbrev shop : Manifest
shop = record {
  target_source = none;
  schemas = sales ∷ [];
  relationships = [];
  extensions = none;
  downstream = [];
}

abbrev live : Catalog
live = record {
  schema_exists = λ s. true;
  enum_labels = λ s n. some ("red" ∷ []);
  sequence_exists = λ s n. false;
  table_exists = λ s n. true;
  column_info = λ s t c.
      if text_eq c "id"
      then some
          (record { data_type = "integer"; udt_name = "int4"; character_maximum_length = none })
      else some (record {
        data_type = "character varying";
        udt_name = "varchar";
        character_maximum_length = some 20;
      });
  view_exists = λ s n. true;
  function_exists = λ s n. false;
  live_tables = λ s. "orders" ∷ "old" ∷ "__deleted_x" ∷ [];
  fabric_table = λ n. none;
  live_extensions = [];
  downstream_registered = λ t. false;
}

abbrev nowhere : Registry
nowhere name = none

abbrev hub : Target
hub = record {
  schema_name = "tenant_t_sales";
  engine_type = postgres;
  caps = engine_capabilities postgres;
}

abbrev mongo : Target
mongo = record { schema_name = "db"; engine_type = mongodb; caps = engine_capabilities mongodb }

longer_name :
    diff_table live hub orders ≡ entry alter_column_type (of_column "orders" name_column) ∷ []
unfolding comparing
longer_name = refl

retired_table :
    detect_retired live hub (some (totals ∷ orders ∷ colours ∷ [])) ≡ quarantine "old" ∷ []
unfolding comparing
retired_table = refl

-- A schema without a list retires nothing, one with an empty list every table.
unlisted_tables :
    (detect_retired live hub none ≡ [])
    × (detect_retired live hub (some []) ≡ quarantine "orders" ∷ quarantine "old" ∷ [])
unfolding comparing
unlisted_tables = (refl, refl)

sorted_kinds : sort_resources (totals ∷ orders ∷ colours ∷ []) ≡ colours ∷ orders ∷ totals ∷ []
unfolding comparing
sorted_kinds = refl

guessed_engine : engine_for nowhere "Sales_Mongo" ≡ mongodb
unfolding comparing
guessed_engine = refl

process_resource_diff-Entry_example :
    All
      (Entry 5 (is_lacking (engine_capabilities mongodb) totals))
      (process_resource_diff live mongo totals)
process_resource_diff-Entry_example = process_resource_diff-Entry live mongo totals

process_all-sort_resources_example :
    Staged (process_all live hub (sort_resources (totals ∷ orders ∷ colours ∷ [])))
process_all-sort_resources_example =
    process_all-sort_resources live hub (totals ∷ orders ∷ colours ∷ [])

compare_manifest-Retired_example :
    (In (quarantine "old") (compare_manifest nowhere live shop)
      × ((quarantine "old").risk ≡ some high))
    ↔ ((s : Schema) × (name : String) × (quarantine "old" ≡ quarantine name)
        × Retired nowhere live shop s name)
compare_manifest-Retired_example = compare_manifest-Retired nowhere live shop (quarantine "old")

orders-DistinctColumns : DistinctColumns (id_column ∷ name_column ∷ [])
unfolding comparing
orders-DistinctColumns = (refl, (refl, tt))

-- A catalog that has stored the orders as they are declared.
abbrev stored : Catalog
stored = record {
  schema_exists = live.schema_exists;
  enum_labels = live.enum_labels;
  sequence_exists = live.sequence_exists;
  table_exists = live.table_exists;
  column_info = live.column_info;
  view_exists = live.view_exists;
  function_exists = live.function_exists;
  live_tables = live.live_tables;
  fabric_table = λ n. some (id_column ∷ name_column ∷ []);
  live_extensions = live.live_extensions;
  downstream_registered = live.downstream_registered;
}

diff_table-stored_example : diff_table stored mongo orders ≡ []
unfolding comparing
diff_table-stored_example = diff_table-stored stored mongo orders refl refl orders-DistinctColumns
