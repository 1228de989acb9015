-- ===== src/Grants/Tests.antt =====
-- Runs of the grants. (grant.service.ts)
use zero_datafabric.Common.{
  ◌≡◌, refl, ◌↔◌, ◌⊎◌, none, some, [], ◌∷◌, or_else, upper, text_eq, if◌then◌else◌,
}
use zero_datafabric.Grants.{select, update, Catalog, gives, decide, check, access_denied, enforce}
use zero_datafabric.Grants.Deciding.{Permitted, enforce_iff}

abbrev shop : Catalog
shop tenant schema table =
    if text_eq table "orders"
    then some (record { role = "analyst"; privileges = "select" ∷ [] } ∷ [])
    else none

analyst_reads : enforce shop "t1" "sales" "orders" (some "Analyst") select ≡ none
unfolding enforce check decide gives upper
analyst_reads = refl

analyst_writes :
    enforce shop "t1" "sales" "orders" (some "Analyst") update
    ≡ some (access_denied (some "Analyst") update "sales" "orders")
unfolding enforce check decide gives upper
analyst_writes = refl

enforce_iff_example :
    ((enforce shop "t1" "sales" "orders" none select ≡ none)
      ↔ Permitted (or_else (shop "t1" "sales" "orders") []) none select)
    × ((enforce shop "t1" "sales" "orders" none select ≡ none)
        ⊎ (enforce shop "t1" "sales" "orders" none select
            ≡ some (access_denied none select "sales" "orders")))
enforce_iff_example = enforce_iff shop "t1" "sales" "orders" none select
