-- ===== src/Planner.antt =====
-- backend/src/modules/query-engine/planner.ts: where a query runs. Syntax has the query, Legs what
-- its tables resolve to; the messages for people and the cache of resolved tables are left out. The
-- catalog's answers are an argument.
pub mod Syntax
pub mod Legs
pub mod Mentioned
pub mod Resolved
pub mod Databases
pub mod Strategies
mod Tests
use zero_datafabric.Common.{
  String, Bool, true, false, not, ◌&&◌, ◌||◌, Option, none, some, List, [], ◌∷◌, ◌++◌, map, length,
  keep, any, if◌then◌else◌, ◌==◌, leb, text_eq, concat, Assoc, lookup,
}
use zero_datafabric.Policy.{is_member}
use zero_datafabric.Planner.Syntax.{
  Ast, absent, query, Table, table, Tables, no_tables, and_table, SetOps, not_given, given, Asts,
  Ctes, no_ctes, and_cte, Ref, local_source, collect_refs, cte_names, has_recursive_cte,
}
use zero_datafabric.Planner.Legs.{
  SourceCatalog, ResolvedLeg, resolve_leg, norm_engine, is_relational, dialect_of, conn_fingerprint,
}

pub data Strategy : Type 0 where
  single_local single_connector cross_engine : Strategy

pub record QueryPlan : Type 0 where
  pub strategy : Strategy
  pub resolve_map : Assoc ResolvedLeg
  pub legs : List ResolvedLeg
  pub colocated : Bool
  pub co_located_source : Option String
  pub dialect : Option String

-- `new Set(xs)`: what its size counts.
abbrev pub distinct : List String → List String
distinct [] = []
distinct (x ∷ xs) = let rest = distinct xs in if is_member x rest then rest else x ∷ rest

abbrev pub leg_key : Ref → String
leg_key (source, resource) = concat source (concat "::" resource)

-- A reference to a CTE, which is no table of the catalog.
abbrev pub is_logical : List String → Ref → Bool
is_logical names (source, resource) =
    is_member resource names && (text_eq source "" || text_eq source local_source)

abbrev pub add_leg : Ref → Option ResolvedLeg → Assoc ResolvedLeg → Option (Assoc ResolvedLeg)
add_leg r none found = none
add_leg r (some leg) found = some (found ++ (leg_key r, leg) ∷ [])

abbrev pub resolve_ref :
    SourceCatalog → List String → Ref → Assoc ResolvedLeg → Option (Assoc ResolvedLeg)
resolve_ref catalog names r found =
    if is_logical names r then some found else elim (lookup (leg_key r) found) [
      | some leg ↦ some found
      | none ↦ add_leg r (resolve_leg catalog r) found
    ]

-- The loop that resolves each reference once; `none` where a source is not found.
unfoldable pub resolve_refs :
    SourceCatalog → List String → List Ref → Option (Assoc ResolvedLeg) → Option (Assoc ResolvedLeg)
unfolding resolve_leg lookup
resolve_refs catalog names refs none = none
resolve_refs catalog names [] (some found) = some found
resolve_refs catalog names (r ∷ refs) (some found) =
    resolve_refs catalog names refs (resolve_ref catalog names r found)

abbrev pub values : Assoc ResolvedLeg → List ResolvedLeg
values [] = []
values ((k, leg) ∷ m) = leg ∷ values m

abbrev pub is_connector : ResolvedLeg → Bool
is_connector l = not l.reachable_in_pg

abbrev pub is_named : ResolvedLeg → Bool
is_named l = not (text_eq l.source local_source)

abbrev pub engine_token : ResolvedLeg → String
engine_token l = norm_engine l.engine

abbrev pub leg_source : ResolvedLeg → String
leg_source l = l.source

abbrev pub first_engine : List ResolvedLeg → String
first_engine [] = ""
first_engine (l ∷ ls) = l.engine

abbrev pub first_source : List ResolvedLeg → Option String
first_source [] = none
first_source (l ∷ ls) = some l.source

-- What `classify` reads from the legs.
abbrev pub connectors : List ResolvedLeg → List ResolvedLeg
connectors legs = keep is_connector legs

abbrev pub named_sources : List ResolvedLeg → List String
named_sources legs = distinct (map leg_source (keep is_named legs))

unfoldable pub co_locatable : List ResolvedLeg → Bool
unfolding conn_fingerprint norm_engine
co_locatable legs =
    let remote = connectors legs in
    leb 1 (length legs)
    && length remote == length legs
    && length (distinct (map conn_fingerprint remote)) == 1
    && length (distinct (map engine_token remote)) == 1
    && (is_relational (norm_engine (first_engine remote))
        || text_eq (norm_engine (first_engine remote)) "MONGODB")

abbrev pub is_given : SetOps → Bool
is_given not_given = false
is_given (given asts) = true

abbrev pub has_set_ops : Ast → Bool
has_set_ops absent = false
has_set_ops (query from joins union intersect except ctes) =
    is_given union || is_given intersect || is_given except

abbrev pub any_table : Tables → Bool
any_table no_tables = false
any_table (and_table t ts) = true

abbrev pub has_joins : Ast → Bool
has_joins absent = false
has_joins (query from joins union intersect except ctes) = any_table joins

abbrev pub any_cte : Ctes → Bool
any_cte no_ctes = false
any_cte (and_cte name base more ctes) = true

abbrev pub has_with : Ast → Bool
has_with absent = false
has_with (query from joins union intersect except ctes) =
    any_cte ctes && not (has_recursive_cte (query from joins union intersect except ctes))

abbrev pub is_present_ast : Ast → Bool
is_present_ast absent = false
is_present_ast (query from joins union intersect except ctes) = true

abbrev pub is_derived : Table → Bool
is_derived (table nested source resource) = is_present_ast nested

abbrev pub some_derived : Tables → Bool
some_derived no_tables = false
some_derived (and_table t ts) = is_derived t || some_derived ts

abbrev pub has_derived_from : Ast → Bool
has_derived_from absent = false
has_derived_from (query from joins union intersect except ctes) =
    is_derived from || some_derived joins

abbrev pub plain_plan : Strategy → Assoc ResolvedLeg → QueryPlan
plain_plan strategy found = record {
  strategy = strategy;
  resolve_map = found;
  legs = values found;
  colocated = false;
  co_located_source = none;
  dialect = none;
}

unfoldable pub decide_plan : Ast → Assoc ResolvedLeg → Option QueryPlan
unfolding co_locatable dialect_of
decide_plan ast found =
    let legs = values found in
    let remote = connectors legs in
    let nested = has_with ast || has_derived_from ast in
    if nested && leb 1 (length remote) && not (co_locatable legs)
    then none
    else if co_locatable legs && (has_joins ast || has_set_ops ast || nested)
    then some (record {
      strategy = single_connector;
      resolve_map = found;
      legs = legs;
      colocated = true;
      co_located_source = first_source remote;
      dialect = some (dialect_of (first_engine remote));
    })
    else if length remote == 0 && leb (length (named_sources legs)) 1
    then some (plain_plan single_local found)
    else if length remote == 1 && length legs == 1 && not (has_set_ops ast) && not (has_joins ast)
    then some (plain_plan single_connector found)
    else some (plain_plan cross_engine found)

abbrev pub planned : Ast → Option (Assoc ResolvedLeg) → Option QueryPlan
planned ast none = none
planned ast (some found) = decide_plan ast found

unfoldable pub classify : SourceCatalog → Ast → Option QueryPlan
unfolding resolve_refs decide_plan collect_refs cte_names
classify catalog ast =
    if is_present_ast ast
    then planned ast (resolve_refs catalog (cte_names ast) (collect_refs ast) (some []))
    else none
