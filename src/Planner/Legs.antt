-- ===== src/Planner/Legs.antt =====
-- What a table of a query resolves to, and which database that is. (planner.ts)
use zero_datafabric.Common.{
  trim, ℕ, String, Bool, true, ◌||◌, Option, none, some, List, [], ◌∷◌, if◌then◌else◌, or_else,
  text_eq, concat, upper, lower, Assoc, lookup,
}
use zero_datafabric.Planner.Syntax.{Ref, local_source}

-- A connector's settings, each as `String` prints it; an empty text counts as missing.
abbrev pub Config : Type 0
Config = Assoc String

pub record ResolvedLeg : Type 0 where
  pub source : String
  pub resource : String
  pub engine : String
  pub sync_type : String
  pub reachable_in_pg : Bool
  pub physical_schema : Option String
  pub physical_table : String
  pub config : Config
  pub row_count : Option ℕ

-- A row of the catalog; an empty text is a missing one.
pub record CatalogRow : Type 0 where
  pub source_name : String
  pub engine : String
  pub sync_type : String
  pub config : Config
  pub physical_schema : String
  pub physical_table : String
  pub resource_type : String
  pub row_count : Option ℕ

pub record SourceRow : Type 0 where
  pub engine : String
  pub sync_type : String
  pub config : Config

-- The first rows that the queries of the tenant's catalog give, and the environment's override.
pub record SourceCatalog : Type 0 where
  pub by_name : String → Option CatalogRow
  pub by_source : String → String → Option CatalogRow
  pub sources : String → Option SourceRow
  pub target_override : String

-- `a || b` on texts
abbrev pub either : String → String → String
either a b = if text_eq a "" then b else a

abbrev pub if_given : String → Option String
if_given s = if text_eq s "" then none else some s

abbrev pub is_synced : String → Bool
is_synced s = text_eq s "SYNC" || text_eq s "CDC"

abbrev pub local_config : Config
local_config = ("local", "true") ∷ []

abbrev pub local_leg : String → Option String → String → Option ℕ → ResolvedLeg
local_leg resource schema physical count = record {
  source = local_source;
  resource = resource;
  engine = "POSTGRES";
  sync_type = "VIRTUAL";
  reachable_in_pg = true;
  physical_schema = schema;
  physical_table = physical;
  config = local_config;
  row_count = count;
}

abbrev pub local_row : String → CatalogRow → ResolvedLeg
local_row resource row =
    local_leg resource (if_given row.physical_schema) (either row.physical_table resource)
      row.row_count

-- A reference without a source that the catalog knows as another engine's table.
abbrev pub found_elsewhere : String → CatalogRow → ResolvedLeg
found_elsewhere resource row = record {
  source = row.source_name;
  resource = resource;
  engine = upper row.engine;
  sync_type = upper (either row.sync_type "VIRTUAL");
  reachable_in_pg = is_synced row.sync_type;
  physical_schema = some row.physical_schema;
  physical_table = either row.physical_table resource;
  config = row.config;
  row_count = row.row_count;
}

abbrev pub is_view : CatalogRow → Bool
is_view row = text_eq row.resource_type "MATERIALIZED_VIEW"

abbrev pub resolve_local : String → Option CatalogRow → ResolvedLeg
resolve_local resource none = local_leg resource none resource none
resolve_local resource (some row) =
    if text_eq row.engine "POSTGRES" || is_view row
    then local_row resource row
    else found_elsewhere resource row

abbrev pub remote_leg :
    Ref → String → String → Config → Option String → String → Option ℕ → ResolvedLeg
remote_leg (source, resource) engine sync config schema physical count =
    let sync_type = upper (either sync "VIRTUAL") in
    record {
      source = source;
      resource = resource;
      engine = upper (either engine "POSTGRES");
      sync_type = sync_type;
      reachable_in_pg = is_synced sync_type;
      physical_schema = schema;
      physical_table = physical;
      config = config;
      row_count = count;
    }

abbrev pub resolve_source : Ref → Option SourceRow → Option ResolvedLeg
resolve_source r none = none
resolve_source (source, resource) (some s) =
    some (remote_leg (source, resource) s.engine s.sync_type s.config none resource none)

abbrev pub resolve_remote : Ref → Option CatalogRow → Option SourceRow → Option ResolvedLeg
resolve_remote r none s = resolve_source r s
resolve_remote (source, resource) (some row) s =
    if is_view row
    then some (local_row resource row)
    else some (
        remote_leg (source, resource) row.engine row.sync_type row.config
          (if_given row.physical_schema) (either row.physical_table resource) row.row_count)

abbrev pub is_local : String → Bool
is_local source = text_eq source "" || text_eq source local_source

abbrev pub effective_source : SourceCatalog → String → String
effective_source catalog source =
    if is_local source then either catalog.target_override source else source

-- `resolveLegUncached`; `none` where the source is not found.
unfoldable pub resolve_leg : SourceCatalog → Ref → Option ResolvedLeg
unfolding upper
resolve_leg catalog (source, resource) =
    let effective = effective_source catalog source in
    if is_local effective
    then some (resolve_local resource (catalog.by_name resource))
    else resolve_remote (effective, resource) (catalog.by_source effective resource)
        (catalog.sources effective)

unfoldable pub norm_engine : String → String
unfolding upper
norm_engine engine =
    let e = upper engine in
    if text_eq e "POSTGRESQL" || text_eq e "PG"
    then "POSTGRES"
    else if text_eq e "ORACLEDB"
    then "ORACLE"
    else if text_eq e "MARIADB"
    then "MYSQL"
    else e

-- `SQL_RELATIONAL`
abbrev pub is_relational : String → Bool
is_relational e =
    text_eq e "POSTGRES" || text_eq e "MYSQL" || text_eq e "ORACLE" || text_eq e "SNOWFLAKE"

unfoldable pub dialect_of : String → String
unfolding norm_engine
dialect_of engine =
    let e = norm_engine engine in
    if text_eq e "MYSQL"
    then "mysql"
    else if text_eq e "ORACLE"
    then "oracle"
    else if text_eq e "SNOWFLAKE"
    then "snowflake"
    else "postgres"

-- The first of the named settings that is given.
abbrev pub setting : List String → Config → String
setting [] c = ""
setting (k ∷ ks) c = either (or_else (lookup k c) "") (setting ks c)

unfoldable pub conn_fingerprint : ResolvedLeg → String
unfolding norm_engine lookup trim lower
conn_fingerprint leg =
    let c = leg.config in
    let cs = setting ("connectionString" ∷ "connectionUri" ∷ "uri" ∷ "url" ∷ "dsn" ∷ []) c in
    let host = lower (setting ("host" ∷ "server" ∷ "account" ∷ []) c) in
    let port = setting ("port" ∷ []) c in
    let db = lower (setting ("database" ∷ "db" ∷ "serviceName" ∷ "sid" ∷ "schema" ∷ []) c) in
    if text_eq cs ""
    then concat (norm_engine leg.engine)
        (concat "|" (concat host (concat ":" (concat port (concat "/" db)))))
    else concat (norm_engine leg.engine) (concat "|" (lower (trim cs)))
