-- ===== src/Diff/Compare.antt =====
-- backend/src/modules/metadata/diff_engine.ts: the order of resources, retired tables, and the
-- comparison of a whole manifest.
use zero_datafabric.Common.{
  ℕ, String, Bool, true, false, not, ◌&&◌, ◌||◌, Option, none, some, List, [], ◌∷◌, ◌++◌, map,
  if◌then◌else◌, leb, keep, or_else, has_prefix,
}
use zero_datafabric.Diff.Engines.{engine_capabilities, Registry, engine_for}
use zero_datafabric.Diff.Model.{
  ResourceType, enum, sequence, function, procedure, table, view, materialized_view, unknown,
  Resource, Schema, Downstream, Manifest, Catalog, create_schema, quarantine_table,
  provision_relationship, provision_extensions, provision_downstream, high, named, of_extensions,
  Diff, Target,
}
use zero_datafabric.Diff.Columns.{entry}
use zero_datafabric.Diff.Resources.{contains, process_resource_diff}

abbrev pub rank : ResourceType → ℕ
rank enum = 1
rank sequence = 2
rank function = 3
rank procedure = 3
rank table = 4
rank view = 5
rank materialized_view = 6
rank unknown = 99

-- `sort` by rank, which is stable.
unfoldable pub insert_resource : Resource → List Resource → List Resource
insert_resource r [] = r ∷ []
insert_resource r (s ∷ ss) =
    if leb (rank r.kind) (rank s.kind) then r ∷ s ∷ ss else s ∷ insert_resource r ss

unfoldable pub sort_resources : List Resource → List Resource
unfolding insert_resource
sort_resources [] = []
sort_resources (r ∷ rs) = insert_resource r (sort_resources rs)

unfoldable pub process_all : Catalog → Target → List Resource → List Diff
unfolding process_resource_diff
process_all cat t [] = []
process_all cat t (r ∷ rs) = process_resource_diff cat t r ++ process_all cat t rs

unfoldable pub schema_diff : Catalog → Target → Schema → List Diff
schema_diff cat t s =
    if t.caps.supports_schemas
    then if t.caps.catalog_introspection && cat.schema_exists t.schema_name
      then []
      else entry create_schema (named s.name) ∷ []
    else []

abbrev pub is_table : ResourceType → Bool
is_table table = true
is_table _ = false

abbrev pub declared_tables : List Resource → List String
declared_tables rs = map (λ r. r.name) (keep (λ r. is_table r.kind) rs)

abbrev pub is_retired : List String → String → Bool
is_retired declared name = not (contains name declared) && not (has_prefix "__deleted" name)

abbrev pub quarantine : String → Diff
quarantine name = record {
  action = quarantine_table;
  subject = named name;
  is_fabric_compensation = false;
  risk = some high;
}

unfoldable pub detect_retired : Catalog → Target → Option (List Resource) → List Diff
unfolding has_prefix
detect_retired cat t none = []
detect_retired cat t (some resources) =
    if t.caps.catalog_introspection
    then map quarantine
        (keep (is_retired (declared_tables resources)) (cat.live_tables t.schema_name))
    else []

-- The first of `schema.targetSource`, `manifest.targetSource` and the hub.
abbrev pub source_of : Manifest → Schema → String
source_of m s = or_else s.target_source (or_else m.target_source "Fabric_Hub_Postgres")

unfoldable pub target_of : Registry → Manifest → Schema → Target
unfolding engine_for
target_of sources m s =
    let e = engine_for sources (source_of m s) in
    record { schema_name = s.physical; engine_type = e; caps = engine_capabilities e }

unfoldable pub compare_schema : Catalog → Target → Schema → List Diff
unfolding schema_diff process_all sort_resources detect_retired
compare_schema cat t s =
    schema_diff cat t s
    ++ (process_all cat t (sort_resources (or_else s.resources []))
        ++ detect_retired cat t s.resources)

unfoldable pub compare_schemas : Registry → Manifest → Catalog → List Schema → List Diff
unfolding target_of compare_schema
compare_schemas sources m cat [] = []
compare_schemas sources m cat (s ∷ ss) =
    compare_schema cat (target_of sources m s) s ++ compare_schemas sources m cat ss

-- A relationship's diff has the risk that the manifest gives it, if any; it is left out.
abbrev pub relationship_diff : String → Diff
relationship_diff name = record {
  action = provision_relationship;
  subject = named name;
  is_fabric_compensation = false;
  risk = none;
}

abbrev pub provision_missing : List String → List Diff
provision_missing [] = []
provision_missing (e ∷ es) = entry provision_extensions (of_extensions (e ∷ es)) ∷ []

unfoldable pub extension_diff : Catalog → Option (List String) → List Diff
extension_diff cat none = []
extension_diff cat (some declared) =
    provision_missing (keep (λ e. not (contains e cat.live_extensions)) declared)

unfoldable pub downstream_diff : Catalog → List Downstream → List Diff
downstream_diff cat [] = []
downstream_diff cat (d ∷ ds) =
    let rest = downstream_diff cat ds in
    if not (cat.downstream_registered d.target_type) || d.enabled
    then entry provision_downstream (named d.target_type) ∷ rest
    else rest

unfoldable pub compare_manifest : Registry → Catalog → Manifest → List Diff
unfolding compare_schemas extension_diff downstream_diff
compare_manifest sources cat m =
    compare_schemas sources m cat m.schemas
    ++ (map relationship_diff m.relationships
        ++ (extension_diff cat m.extensions ++ downstream_diff cat m.downstream))
