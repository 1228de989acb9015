-- ===== src/Diff/Resources.antt =====
-- backend/src/modules/metadata/diff_engine.ts: the comparison of enums, sequences, views and
-- functions, and the dispatch by type.
use zero_datafabric.Common.{
  String, Bool, true, not, ◌&&◌, Option, none, some, List, [], ◌∷◌, if◌then◌else◌, any, text_eq,
}
use zero_datafabric.Diff.Model.{
  ResourceType, enum, sequence, function, procedure, table, view, materialized_view, unknown,
  Resource, Catalog, Action, create_enum, alter_enum_add_value, register_fabric_enum,
  create_sequence, create_view, create_materialized_view, create_function, create_procedure, low,
  named, of_label, Diff, Target,
}
use zero_datafabric.Diff.Columns.{entry, diff_table}

abbrev pub contains : String → List String → Bool
contains s xs = any (λ x. text_eq x s) xs

unfoldable pub missing_labels : String → List String → List String → List Diff
missing_labels name labels [] = []
missing_labels name labels (v ∷ vs) =
    if contains v labels
    then missing_labels name labels vs
    else entry alter_enum_add_value (of_label name v) ∷ missing_labels name labels vs

abbrev pub enum_against : Resource → Option (List String) → List Diff
enum_against res none = entry create_enum (named res.name) ∷ []
enum_against res (some labels) = missing_labels res.name labels res.values

unfoldable pub diff_enum : Catalog → Target → Resource → List Diff
unfolding missing_labels
diff_enum cat t res =
    if t.caps.supports_enums
    then enum_against res (cat.enum_labels t.schema_name res.name)
    else entry register_fabric_enum (named res.name) ∷ []

-- An entry that the fabric provides in place of the engine.
abbrev pub compensation : Action → String → Diff
compensation a name = record {
  action = a;
  subject = named name;
  is_fabric_compensation = true;
  risk = some low;
}

-- The creation of a resource that the engine supports: left out where the catalog has it.
abbrev pub create_unless : Bool → Bool → Action → String → List Diff
create_unless introspection exists action name =
    if introspection && exists then [] else entry action (named name) ∷ []

unfoldable pub diff_sequence : Catalog → Target → Resource → List Diff
diff_sequence cat t res =
    if t.caps.supports_sequences
    then create_unless t.caps.catalog_introspection (cat.sequence_exists t.schema_name res.name)
        create_sequence res.name
    else compensation create_sequence res.name ∷ []

abbrev pub is_materialized : Resource → Bool
is_materialized res = elim (res.kind) [ materialized_view ↦ true | _ ↦ res.materialized ]

abbrev pub view_action : Resource → Action
view_action res = if is_materialized res then create_materialized_view else create_view

unfoldable pub diff_view : Catalog → Target → Resource → List Diff
diff_view cat t res =
    if is_materialized res && not t.caps.supports_materialized_views
    then compensation create_materialized_view res.name ∷ []
    else if t.caps.supports_views
    then create_unless t.caps.catalog_introspection (cat.view_exists t.schema_name res.name)
        (view_action res) res.name
    else compensation (view_action res) res.name ∷ []

abbrev pub function_action : ResourceType → Action
function_action procedure = create_procedure
function_action _ = create_function

unfoldable pub diff_function : Catalog → Target → Resource → List Diff
diff_function cat t res =
    if t.caps.supports_functions
    then create_unless t.caps.catalog_introspection (cat.function_exists t.schema_name res.name)
        (function_action res.kind) res.name
    else compensation (function_action res.kind) res.name ∷ []

abbrev pub diff_of_kind : ResourceType → Catalog → Target → Resource → List Diff
diff_of_kind enum = diff_enum
diff_of_kind sequence = diff_sequence
diff_of_kind table = diff_table
diff_of_kind view = diff_view
diff_of_kind materialized_view = diff_view
diff_of_kind function = diff_function
diff_of_kind procedure = diff_function
diff_of_kind unknown = λ cat t res. []

unfoldable pub process_resource_diff : Catalog → Target → Resource → List Diff
unfolding diff_enum diff_sequence diff_table diff_view diff_function
process_resource_diff cat t res = diff_of_kind res.kind cat t res
