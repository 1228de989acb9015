-- ===== src/Planner/Tests.antt =====
-- Queries over a small catalog. (planner.ts)
use zero_datafabric.Common.{◌≡◌, refl, String, Option, none, some, [], ◌∷◌, if◌then◌else◌, text_eq}
use zero_datafabric.Planner.Syntax.{
  Ast, absent, query, Table, table, no_tables, and_table, not_given, no_ctes, and_cte, cte_names,
}
use zero_datafabric.Planner.Legs.{SourceCatalog, CatalogRow, Config}
use zero_datafabric.Planner.{QueryPlan, classify}

abbrev shop_config : Config
shop_config = ("host", "DB1") ∷ ("port", "5432") ∷ ("database", "shop") ∷ []

abbrev row_of : String → CatalogRow
row_of name = record {
  source_name = "Shop";
  engine = "postgresql";
  sync_type = "virtual";
  config = shop_config;
  physical_schema = "public";
  physical_table = name;
  resource_type = "TABLE";
  row_count = none;
}

abbrev catalog : SourceCatalog
catalog = record {
  by_name = λ name. none;
  by_source = λ source name. if text_eq source "Shop" then some (row_of name) else none;
  sources = λ source. none;
  target_override = "";
}

abbrev shop_table : String → Table
shop_table name = table absent "Shop" name

abbrev orders : Ast
orders =
    query (shop_table "orders") (and_table (shop_table "items") no_tables) not_given not_given
      not_given no_ctes

-- A CTE that a derived table declares is looked for in the catalog of the hub.
abbrev inner_cte : Ast
inner_cte =
    query
      (table
        (query (table absent "" "recent") no_tables not_given not_given not_given
          (and_cte "recent" orders absent no_ctes))
        "" "")
      no_tables not_given not_given not_given no_ctes

source_chosen : Option QueryPlan → Option String
source_chosen none = none
source_chosen (some p) = p.co_located_source

orders_together : source_chosen (classify catalog orders) ≡ some "Shop"
unfolding classify source_chosen
orders_together = refl

inner_names : cte_names inner_cte ≡ []
unfolding cte_names
inner_names = refl
