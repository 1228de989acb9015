-- ===== src/Diff/Columns.antt =====
-- backend/src/modules/metadata/diff_engine.ts: types of columns, and the comparison of a table.
use zero_datafabric.Common.{
  ℕ, suc, String, Bool, true, false, not, ◌&&◌, ◌||◌, Option, none, some, List, [], ◌∷◌, ◌++◌,
  if◌then◌else◌, ◌==◌, text_eq, upper, lower, includes,
}
use zero_datafabric.Diff.Model.{
  Column, Resource, CatalogColumn, Catalog, Action, create_table, add_column, alter_column_type,
  low, Subject, named, of_column, Diff, Target,
}

pub record Family : Type 0 where
  pub family : String
  pub length : Option ℕ

abbrev pub plain : String → Family
plain f = record { family = f; length = none }

-- `length || undefined`
abbrev pub positive : Option ℕ → Option ℕ
positive (some (suc n)) = some (suc n)
positive _ = none

unfoldable pub normalize_catalog_type : String → String → Option ℕ → Family
unfolding lower upper includes
normalize_catalog_type data_type udt_name char_len =
    let dt = lower data_type in
    let udt = lower udt_name in
    if text_eq dt "character varying" || text_eq udt "varchar"
    then record { family = "VARCHAR"; length = positive char_len }
    else if text_eq dt "text" || text_eq udt "text"
    then plain "TEXT"
    else if text_eq dt "integer"
        || text_eq udt "int4"
        || text_eq dt "smallint"
        || text_eq udt "int2"
    then plain "INT"
    else if text_eq dt "bigint" || text_eq udt "int8"
    then plain "BIGINT"
    else if text_eq dt "numeric" || text_eq dt "decimal"
    then plain "NUMERIC"
    else if text_eq dt "boolean" || text_eq udt "bool"
    then plain "BOOL"
    else if includes "timestamp" dt
    then plain "TIMESTAMP"
    else if text_eq dt "date"
    then plain "DATE"
    else if text_eq dt "uuid"
    then plain "UUID"
    else if text_eq dt "jsonb" || text_eq dt "json"
    then plain "JSONB"
    else if text_eq dt "user-defined"
    then plain "ENUM"
    else plain (upper dt)

abbrev pub string_family : Option ℕ → Family
string_family none = plain "TEXT"
string_family (some n) = record { family = "VARCHAR"; length = some n }

unfoldable pub normalize_declared_type : String → Option ℕ → Family
unfolding upper
normalize_declared_type decl_type length =
    let t = upper decl_type in
    if text_eq t "STRING"
    then string_family (positive length)
    else if text_eq t "VARCHAR"
    then record { family = "VARCHAR"; length = positive length }
    else if text_eq t "TEXT"
    then plain "TEXT"
    else if text_eq t "INT" || text_eq t "INTEGER"
    then plain "INT"
    else if text_eq t "BIGINT"
    then plain "BIGINT"
    else if text_eq t "NUMERIC" || text_eq t "DECIMAL" || text_eq t "FLOAT"
    then plain "NUMERIC"
    else if text_eq t "BOOL" || text_eq t "BOOLEAN"
    then plain "BOOL"
    else if text_eq t "TIMESTAMP"
    then plain "TIMESTAMP"
    else if text_eq t "DATE"
    then plain "DATE"
    else if text_eq t "UUID"
    then plain "UUID"
    else if text_eq t "JSONB"
    then plain "JSONB"
    else if text_eq t "ENUM"
    then plain "ENUM"
    else plain t

-- The comparison of lengths where both families are VARCHAR: against the live catalog, in which a
-- declared length alone counts, and against the stored definition, in which any change does.
abbrev pub live_length_changed : Option ℕ → Option ℕ → Bool
live_length_changed (some c) (some d) = not (c == d)
live_length_changed none (some d) = true
live_length_changed _ none = false

abbrev pub stored_length_changed : Option ℕ → Option ℕ → Bool
stored_length_changed (some c) (some d) = not (c == d)
stored_length_changed none none = false
stored_length_changed _ _ = true

unfoldable pub live_type_changed : CatalogColumn → Column → Bool
unfolding normalize_catalog_type normalize_declared_type
live_type_changed existing col =
    let cat =
      normalize_catalog_type existing.data_type existing.udt_name
        existing.character_maximum_length in
    let dec = normalize_declared_type col.type_name col.length in
    if text_eq cat.family dec.family
    then text_eq dec.family "VARCHAR" && live_length_changed cat.length dec.length
    else true

unfoldable pub stored_type_changed : Column → Column → Bool
unfolding normalize_declared_type
stored_type_changed prev col =
    let old = normalize_declared_type prev.type_name prev.length in
    let cur = normalize_declared_type col.type_name col.length in
    if text_eq old.family cur.family
    then text_eq cur.family "VARCHAR" && stored_length_changed old.length cur.length
    else true

abbrev pub entry : Action → Subject → Diff
entry a s = record { action = a; subject = s; is_fabric_compensation = false; risk = some low }

-- A column that is missing, of another type, or as declared.
abbrev pub live_column : String → Column → Option CatalogColumn → List Diff
live_column table col none = entry add_column (of_column table col) ∷ []
live_column table col (some existing) =
    if live_type_changed existing col
    then entry alter_column_type (of_column table col) ∷ []
    else []

abbrev pub stored_column : String → Column → Option Column → List Diff
stored_column table col none = entry add_column (of_column table col) ∷ []
stored_column table col (some prev) =
    if stored_type_changed prev col then entry alter_column_type (of_column table col) ∷ [] else []

unfoldable pub live_columns : Catalog → String → String → List Column → List Diff
unfolding live_type_changed
live_columns cat schema table [] = []
live_columns cat schema table (c ∷ cs) =
    live_column table c (cat.column_info schema table c.name) ++ live_columns cat schema table cs

-- `prevColMap.get(name)`: of several columns with one name the map keeps the last.
unfoldable pub find_column : String → List Column → Option Column
find_column name [] = none
find_column name (c ∷ cs) = elim (find_column name cs) [
  | some later ↦ some later
  | none ↦ if text_eq c.name name then some c else none
]

unfoldable pub stored_columns : List Column → String → List Column → List Diff
unfolding stored_type_changed find_column
stored_columns prev table [] = []
stored_columns prev table (c ∷ cs) =
    stored_column table c (find_column c.name prev) ++ stored_columns prev table cs

abbrev pub against_stored : Option (List Column) → String → List Column → List Diff
against_stored none table columns = entry create_table (named table) ∷ []
against_stored (some prev) table columns = stored_columns prev table columns

unfoldable pub diff_table : Catalog → Target → Resource → List Diff
unfolding live_columns stored_columns
diff_table cat t res =
    if t.caps.catalog_introspection
    then if cat.table_exists t.schema_name res.name
      then live_columns cat t.schema_name res.name res.columns
      else entry create_table (named res.name) ∷ []
    else against_stored (cat.fabric_table res.name) res.name res.columns
