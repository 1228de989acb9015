-- ===== src/Planner/Strategies.antt =====
-- Each strategy is chosen only where it can run the query. (planner.ts)
use zero_datafabric.Common.{◌≡◌, ◌⊎◌, Bool, true, false, ◌||◌, Option, none, some, List, In, All}
use zero_datafabric.Planner.Syntax.{Ast, Ref, collect_refs}
use zero_datafabric.Planner.Legs.{SourceCatalog, ResolvedLeg, resolve_leg}
use zero_datafabric.Planner.{
  Strategy, single_local, single_connector, cross_engine, QueryPlan, values, has_with,
  has_derived_from, is_present_ast, values,
}
use zero_datafabric.Planner.Resolved.{Covers}
use zero_datafabric.Planner.Databases.{Reachable, OneDatabase, OneStatement, OneTable}

-- Joined in memory: no part of a nested query needs a connector.
abbrev pub Federated : Ast → List ResolvedLeg → Type 0
Federated ast legs = (has_with ast || has_derived_from ast ≡ false) ⊎ All Reachable legs

-- What a plan of each kind may rely on.
abbrev pub Fits : Ast → Strategy → Bool → List ResolvedLeg → Type 0
Fits ast single_local colocated legs = OneStatement legs
Fits ast single_connector true legs = OneDatabase legs
Fits ast single_connector false legs = OneTable ast legs
Fits ast cross_engine colocated legs = Federated ast legs

-- Why there is no plan: no query, a nested query, or a reference whose source is not found.
abbrev pub Refused : SourceCatalog → Ast → Type 0
Refused catalog ast =
    ((is_present_ast ast ≡ false) ⊎ (has_with ast || has_derived_from ast ≡ true))
    ⊎ ((r : Ref) × In r (collect_refs ast) × (resolve_leg catalog r ≡ none))

abbrev pub PlanFits : SourceCatalog → Ast → Option QueryPlan → Type 0
PlanFits catalog ast none = Refused catalog ast
PlanFits catalog ast (some p) = Fits ast p.strategy p.colocated p.legs × Covers catalog ast p.legs
