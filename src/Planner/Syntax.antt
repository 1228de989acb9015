-- ===== src/Planner/Syntax.antt =====
-- The query as the planner walks it. (planner.ts)
use zero_datafabric.Common.{
  String, Bool, true, false, ◌||◌, List, [], ◌∷◌, ◌++◌, if◌then◌else◌, text_eq,
}

abbrev pub local_source : String
local_source = "Fabric_Hub_Postgres"

-- What is missing: a query is `absent`, a name is the empty text, a list of tables is empty. Lists
-- of set operations are told apart from missing ones.
mutual
  pub data Ast : Type 0 where
    absent : Ast
    query : Table → Tables → SetOps → SetOps → SetOps → Ctes → Ast

  -- `{ query, source, resource }`
  pub data Table : Type 0 where
    table : Ast → String → String → Table

  pub data Tables : Type 0 where
    no_tables : Tables
    and_table : Table → Tables → Tables

  pub data SetOps : Type 0 where
    not_given : SetOps
    given : Asts → SetOps

  pub data Asts : Type 0 where
    no_asts : Asts
    and_ast : Ast → Asts → Asts

  -- `{ name, base, unionAll }`
  pub data Ctes : Type 0 where
    no_ctes : Ctes
    and_cte : String → Ast → Ast → Ctes → Ctes

abbrev pub Ref : Type 0
Ref = String × String

abbrev pub or_local : String → String
or_local source = if text_eq source "" then local_source else source

unfoldable mutual
  pub collect_refs : Ast → List Ref
  collect_refs absent = []
  collect_refs (query from joins union intersect except ctes) =
      table_refs from
      ++ tables_refs joins
      ++ set_refs union
      ++ set_refs intersect
      ++ set_refs except
      ++ cte_refs ctes

  pub table_refs : Table → List Ref
  table_refs (table absent source resource) =
      if text_eq resource "" then [] else (or_local source, resource) ∷ []
  table_refs (table (query f j u i e w) source resource) = collect_refs (query f j u i e w)

  pub tables_refs : Tables → List Ref
  tables_refs no_tables = []
  tables_refs (and_table t ts) = table_refs t ++ tables_refs ts

  pub set_refs : SetOps → List Ref
  set_refs not_given = []
  set_refs (given asts) = asts_refs asts

  pub asts_refs : Asts → List Ref
  asts_refs no_asts = []
  asts_refs (and_ast a asts) = collect_refs a ++ asts_refs asts

  pub cte_refs : Ctes → List Ref
  cte_refs no_ctes = []
  cte_refs (and_cte name base more ctes) = collect_refs base ++ collect_refs more ++ cte_refs ctes

abbrev pub given_name : String → List String
given_name name = if text_eq name "" then [] else name ∷ []

-- The names that `walk` collects: it enters set operations and CTEs, and no table.
unfoldable mutual
  pub cte_names : Ast → List String
  cte_names absent = []
  cte_names (query from joins union intersect except ctes) =
      ctes_names ctes ++ set_names union ++ set_names intersect ++ set_names except

  pub set_names : SetOps → List String
  set_names not_given = []
  set_names (given asts) = asts_names asts

  pub asts_names : Asts → List String
  asts_names no_asts = []
  asts_names (and_ast a asts) = cte_names a ++ asts_names asts

  pub ctes_names : Ctes → List String
  ctes_names no_ctes = []
  ctes_names (and_cte name base more ctes) =
      given_name name ++ cte_names base ++ cte_names more ++ ctes_names ctes

abbrev pub is_recursive : Ast → Bool
is_recursive absent = false
is_recursive (query from joins union intersect except ctes) = true

unfoldable mutual
  pub has_recursive_cte : Ast → Bool
  has_recursive_cte absent = false
  has_recursive_cte (query from joins union intersect except ctes) =
      ctes_recursive ctes || set_recursive union || set_recursive intersect || set_recursive except

  pub set_recursive : SetOps → Bool
  set_recursive not_given = false
  set_recursive (given asts) = asts_recursive asts

  pub asts_recursive : Asts → Bool
  asts_recursive no_asts = false
  asts_recursive (and_ast a asts) = has_recursive_cte a || asts_recursive asts

  pub ctes_recursive : Ctes → Bool
  ctes_recursive no_ctes = false
  ctes_recursive (and_cte name base more ctes) =
      is_recursive more || has_recursive_cte base || has_recursive_cte more || ctes_recursive ctes
