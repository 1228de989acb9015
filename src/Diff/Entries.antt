-- ===== src/Diff/Entries.antt =====
-- What holds of each entry that a resource is given. (diff_engine.ts)
use zero_datafabric.Common.{
  ℕ, ◌≡◌, refl, subst, inl, inr, Bool-cases, String, Bool, true, false, not, ◌&&◌, ◌||◌, Option,
  none, some, List, [], ◌∷◌, if◌then◌else◌, All, All-append,
}
use zero_datafabric.Diff.Engines.{EngineCapability}
use zero_datafabric.Diff.Model.{
  ResourceType, enum, sequence, function, procedure, table, view, materialized_view, unknown,
  Column, CatalogColumn, Resource, Catalog, Action, create_enum, alter_enum_add_value,
  register_fabric_enum, create_sequence, create_table, add_column, alter_column_type, create_view,
  create_materialized_view, create_function, create_procedure, of_column, low, Diff, Target,
}
use zero_datafabric.Diff.Columns.{
  entry, live_type_changed, stored_type_changed, live_column, stored_column, live_columns,
  stored_columns, find_column, against_stored, diff_table,
}
use zero_datafabric.Diff.Resources.{
  contains, missing_labels, enum_against, diff_enum, create_unless, diff_sequence, is_materialized,
  view_action, diff_view, function_action, diff_function, diff_of_kind, process_resource_diff,
}
use zero_datafabric.Diff.Compare.{rank}

-- The stage at which an action belongs: types, sequences, functions, tables, views.
abbrev pub stage : Action → ℕ
stage create_enum = 1
stage alter_enum_add_value = 1
stage register_fabric_enum = 1
stage create_sequence = 2
stage create_function = 3
stage create_procedure = 3
stage create_table = 4
stage add_column = 4
stage alter_column_type = 4
stage create_view = 5
stage create_materialized_view = 5
stage _ = 0

-- The stage of a resource: views of both kinds come last.
abbrev pub stage_of : ResourceType → ℕ
stage_of materialized_view = 5
stage_of unknown = 5
stage_of kind = rank kind

-- Whether the engine cannot hold a resource and the fabric has to provide it.
abbrev pub is_lacking_kind : ResourceType → EngineCapability → Resource → Bool
is_lacking_kind sequence caps r = not caps.supports_sequences
is_lacking_kind function caps r = not caps.supports_functions
is_lacking_kind procedure caps r = not caps.supports_functions
is_lacking_kind view caps r =
    (is_materialized r && not caps.supports_materialized_views) || not caps.supports_views
is_lacking_kind materialized_view caps r =
    (is_materialized r && not caps.supports_materialized_views) || not caps.supports_views
is_lacking_kind _ caps r = false

abbrev pub is_lacking : EngineCapability → Resource → Bool
is_lacking caps r = is_lacking_kind r.kind caps r

-- What holds of each entry for a resource.
pub record Entry (st : ℕ) (lacking : Bool) (d : Diff) : Type 0 where
  pub staged : stage d.action ≡ st
  pub compensated : d.is_fabric_compensation ≡ lacking
  pub low_risk : d.risk ≡ some low

abbrev own :
    {st : ℕ} {lacking : Bool} {d : Diff}
    → stage d.action ≡ st
    → d.is_fabric_compensation ≡ lacking
    → d.risk ≡ some low
    → Entry st lacking d
own a b c = record { staged = a; compensated = b; low_risk = c }

missing_labels-Entry :
    (name : String) (labels vs : List String) → All (Entry 1 false) (missing_labels name labels vs)
unfolding missing_labels
missing_labels-Entry name labels [] = tt
missing_labels-Entry name labels (v ∷ vs) = elim (Bool-cases (contains v labels)) [
  | inl e ↦ rw e (missing_labels-Entry name labels vs)
  | inr e ↦ rw e (own refl refl refl, missing_labels-Entry name labels vs)
]

enum_against-Entry :
    (r : Resource) (o : Option (List String)) → All (Entry 1 false) (enum_against r o)
enum_against-Entry r none = (own refl refl refl, tt)
enum_against-Entry r (some labels) = missing_labels-Entry r.name labels r.values

live_column-Entry :
    (t : String) (c : Column) (o : Option CatalogColumn) → All (Entry 4 false) (live_column t c o)
live_column-Entry t c none = (own refl refl refl, tt)
live_column-Entry t c (some existing) = changed_Entry (live_type_changed existing c)
  where
    changed_Entry :
        (b : Bool)
        → All (Entry 4 false) (if b then entry alter_column_type (of_column t c) ∷ [] else [])
    changed_Entry true = (own refl refl refl, tt)
    changed_Entry false = tt

create_unless-Entry :
    (i e : Bool) (a : Action) (name : String)
    → All (Entry (stage a) false) (create_unless i e a name)
create_unless-Entry true true a name = tt
create_unless-Entry true false a name = (own refl refl refl, tt)
create_unless-Entry false e a name = (own refl refl refl, tt)

stored_column-Entry :
    (t : String) (c : Column) (o : Option Column) → All (Entry 4 false) (stored_column t c o)
stored_column-Entry t c none = (own refl refl refl, tt)
stored_column-Entry t c (some prev) = changed_Entry (stored_type_changed prev c)
  where
    changed_Entry :
        (b : Bool)
        → All (Entry 4 false) (if b then entry alter_column_type (of_column t c) ∷ [] else [])
    changed_Entry true = (own refl refl refl, tt)
    changed_Entry false = tt

live_columns-Entry :
    (cat : Catalog) (schema t : String) (cs : List Column)
    → All (Entry 4 false) (live_columns cat schema t cs)
unfolding live_columns
live_columns-Entry cat schema t [] = tt
live_columns-Entry cat schema t (c ∷ cs) =
    All-append (Entry 4 false) (live_column t c (cat.column_info schema t c.name))
      (live_columns cat schema t cs) (live_column-Entry t c (cat.column_info schema t c.name))
      (live_columns-Entry cat schema t cs)

stored_columns-Entry :
    (prev : List Column) (t : String) (cs : List Column)
    → All (Entry 4 false) (stored_columns prev t cs)
unfolding stored_columns
stored_columns-Entry prev t [] = tt
stored_columns-Entry prev t (c ∷ cs) =
    All-append (Entry 4 false) (stored_column t c (find_column c.name prev))
      (stored_columns prev t cs) (stored_column-Entry t c (find_column c.name prev))
      (stored_columns-Entry prev t cs)

against_stored-Entry :
    (o : Option (List Column)) (t : String) (cs : List Column)
    → All (Entry 4 false) (against_stored o t cs)
against_stored-Entry none t cs = (own refl refl refl, tt)
against_stored-Entry (some prev) t cs = stored_columns-Entry prev t cs

module _ (cat : Catalog) (t : Target) where
  diff_table-Entry : (r : Resource) → All (Entry 4 false) (diff_table cat t r)
  unfolding diff_table
  diff_table-Entry r = elim (Bool-cases t.caps.catalog_introspection) [
    | inl e ↦ elim (Bool-cases (cat.table_exists t.schema_name r.name)) [
      | inl f ↦ rw (e, f) (live_columns-Entry cat t.schema_name r.name r.columns)
      | inr f ↦ rw (e, f) (own refl refl refl, tt)
    ]
    | inr e ↦ rw e (against_stored-Entry (cat.fabric_table r.name) r.name r.columns)
  ]

  diff_enum-Entry : (r : Resource) → All (Entry 1 false) (diff_enum cat t r)
  unfolding diff_enum
  diff_enum-Entry r = elim (Bool-cases t.caps.supports_enums) [
    | inl e ↦ rw e (enum_against-Entry r (cat.enum_labels t.schema_name r.name))
    | inr e ↦ rw e (own refl refl refl, tt)
  ]

  diff_sequence-Entry :
      (r : Resource) → All (Entry 2 (not t.caps.supports_sequences)) (diff_sequence cat t r)
  unfolding diff_sequence
  diff_sequence-Entry r = elim (Bool-cases t.caps.supports_sequences) [
    | inl e ↦ rw e (
        create_unless-Entry t.caps.catalog_introspection (cat.sequence_exists t.schema_name r.name)
          create_sequence r.name)
    | inr e ↦ rw e (own refl refl refl, tt)
  ]

  stage-function : (k : ResourceType) → stage (function_action k) ≡ 3
  stage-function procedure = refl
  stage-function enum = refl
  stage-function sequence = refl
  stage-function function = refl
  stage-function table = refl
  stage-function view = refl
  stage-function materialized_view = refl
  stage-function unknown = refl

  diff_function-Entry :
      (r : Resource) → All (Entry 3 (not t.caps.supports_functions)) (diff_function cat t r)
  unfolding diff_function
  diff_function-Entry r =
      let all =
        create_unless-Entry t.caps.catalog_introspection (cat.function_exists t.schema_name r.name)
          (function_action r.kind) r.name in
      elim (Bool-cases t.caps.supports_functions) [
        | inl e ↦ rw e (
            subst
              (λ n. All (Entry n false) (
                create_unless t.caps.catalog_introspection
                  (cat.function_exists t.schema_name r.name) (function_action r.kind) r.name))
              (stage-function r.kind) all)
        | inr e ↦ rw e (own (stage-function r.kind) refl refl, tt)
      ]

  stage-view : (r : Resource) → stage (view_action r) ≡ 5
  stage-view r = elim (Bool-cases (is_materialized r)) [ inl e ↦ rw e refl | inr e ↦ rw e refl ]

  diff_view-Entry :
      (r : Resource)
      → All
          (Entry 5 (
            (is_materialized r && not t.caps.supports_materialized_views)
            || not t.caps.supports_views))
          (diff_view cat t r)
  unfolding diff_view
  diff_view-Entry r =
      let all =
        create_unless-Entry t.caps.catalog_introspection (cat.view_exists t.schema_name r.name)
          (view_action r) r.name in
      elim (Bool-cases (is_materialized r && not t.caps.supports_materialized_views)) [
        | inl e ↦ rw e (own refl refl refl, tt)
        | inr e ↦ elim (Bool-cases t.caps.supports_views) [
          | inl f ↦
              rw (e, f)
                (subst
                  (λ n. All (Entry n false) (
                    create_unless t.caps.catalog_introspection
                      (cat.view_exists t.schema_name r.name) (view_action r) r.name))
                  (stage-view r) all)
          | inr f ↦ rw (e, f) (own (stage-view r) refl refl, tt)
        ]
      ]

  diff_of_kind-Entry :
      (k : ResourceType) (r : Resource)
      → All (Entry (stage_of k) (is_lacking_kind k t.caps r)) (diff_of_kind k cat t r)
  diff_of_kind-Entry enum r = diff_enum-Entry r
  diff_of_kind-Entry sequence r = diff_sequence-Entry r
  diff_of_kind-Entry function r = diff_function-Entry r
  diff_of_kind-Entry procedure r = diff_function-Entry r
  diff_of_kind-Entry table r = diff_table-Entry r
  diff_of_kind-Entry view r = diff_view-Entry r
  diff_of_kind-Entry materialized_view r = diff_view-Entry r
  diff_of_kind-Entry unknown r = tt

  -- Each entry for a resource belongs to the resource's stage, is of low risk, and is marked as a
  -- fabric compensation exactly where the engine lacks what the resource needs: sequences, functions
  -- or procedures, views, or materialized views for a materialized one. An entry for an enum or a
  -- table is never marked.
  pub process_resource_diff-Entry :
      (r : Resource)
      → All (Entry (stage_of r.kind) (is_lacking t.caps r)) (process_resource_diff cat t r)
  unfolding process_resource_diff
  process_resource_diff-Entry r = diff_of_kind-Entry r.kind r
