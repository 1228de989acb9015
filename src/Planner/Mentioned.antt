-- ===== src/Planner/Mentioned.antt =====
-- The tables that a query names, anywhere in it, and that the planner finds each of them.
-- (planner.ts)
use zero_datafabric.Common.{
  ◌≡◌, subst, ◌⊎◌, inl, inr, false, List, ◌++◌, In, In-append_left, In-append_right, text_eq,
}
use zero_datafabric.Planner.Syntax.{
  Ast, absent, query, Table, table, Tables, no_tables, and_table, SetOps, not_given, given, Asts,
  no_asts, and_ast, Ctes, no_ctes, and_cte, Ref, or_local, collect_refs, table_refs, tables_refs,
  set_refs, asts_refs, cte_refs,
}

abbrev pub InTables : Table → Tables → Type 0
InTables t no_tables = ⊥
InTables t (and_table u ts) = (t ≡ u) ⊎ InTables t ts

abbrev pub InAsts : Ast → Asts → Type 0
InAsts a no_asts = ⊥
InAsts a (and_ast b asts) = (a ≡ b) ⊎ InAsts a asts

abbrev pub InSet : Ast → SetOps → Type 0
InSet a not_given = ⊥
InSet a (given asts) = InAsts a asts

-- The base or the recursive part of a CTE.
abbrev pub InCtes : Ast → Ctes → Type 0
InCtes a no_ctes = ⊥
InCtes a (and_cte name base more ctes) = (a ≡ base) ⊎ ((a ≡ more) ⊎ InCtes a ctes)

-- A table of FROM or of a join.
abbrev pub HasTable : Table → Ast → Type 0
HasTable t absent = ⊥
HasTable t (query from joins union intersect except ctes) = (t ≡ from) ⊎ InTables t joins

abbrev pub nested_of : Table → Ast
nested_of (table nested source resource) = nested

-- A query of a set operation or of a CTE.
abbrev pub HasLeg : Ast → Ast → Type 0
HasLeg a absent = ⊥
HasLeg a (query from joins union intersect except ctes) =
    InSet a union ⊎ (InSet a intersect ⊎ (InSet a except ⊎ InCtes a ctes))

-- The table's own name, where it is no derived table.
abbrev pub Names : Table → Ref → Type 0
Names (table nested source resource) r =
    (nested ≡ absent) × (text_eq resource "" ≡ false) × (r ≡ (or_local source, resource))

-- The reference stands in the query: as a table, or in a derived table, a set operation or a CTE.
pub data Mentions (r : Ref) : Ast → Type 0 where
  as_table : {ast : Ast} (t : Table) → HasTable t ast → Names t r → Mentions r ast
  in_table : {ast : Ast} (t : Table) → HasTable t ast → Mentions r (nested_of t) → Mentions r ast
  in_leg : {ast : Ast} (a : Ast) → HasLeg a ast → Mentions r a → Mentions r ast

table_refs-Names : (t : Table) (r : Ref) → Names t r → In r (table_refs t)
unfolding table_refs
table_refs-Names (table absent source resource) r (e, given_name, same) = rw given_name (inl same)
table_refs-Names (table (query f j u i x w) source resource) r (e, given_name, same) = cc

table_refs-nested : (t : Table) (r : Ref) → In r (collect_refs (nested_of t)) → In r (table_refs t)
unfolding table_refs collect_refs
table_refs-nested (table absent source resource) r m = absurd m
table_refs-nested (table (query f j u i x w) source resource) r m = m

tables_refs-In :
    (t : Table) (ts : Tables) (r : Ref)
    → InTables t ts
    → In r (table_refs t)
    → In r (tables_refs ts)
unfolding tables_refs
tables_refs-In t no_tables r h m = absurd h
tables_refs-In t (and_table u ts) r (inl e) m =
    In-append_left r (table_refs u) (tables_refs ts) (subst (λ x. In r (table_refs x)) e m)
tables_refs-In t (and_table u ts) r (inr h) m =
    In-append_right r (table_refs u) (tables_refs ts) (tables_refs-In t ts r h m)

asts_refs-In :
    (a : Ast) (asts : Asts) (r : Ref)
    → InAsts a asts
    → In r (collect_refs a)
    → In r (asts_refs asts)
unfolding asts_refs
asts_refs-In a no_asts r h m = absurd h
asts_refs-In a (and_ast b asts) r (inl e) m =
    In-append_left r (collect_refs b) (asts_refs asts) (subst (λ x. In r (collect_refs x)) e m)
asts_refs-In a (and_ast b asts) r (inr h) m =
    In-append_right r (collect_refs b) (asts_refs asts) (asts_refs-In a asts r h m)

set_refs-In :
    (a : Ast) (s : SetOps) (r : Ref) → InSet a s → In r (collect_refs a) → In r (set_refs s)
unfolding set_refs
set_refs-In a not_given r h m = absurd h
set_refs-In a (given asts) r h m = asts_refs-In a asts r h m

cte_refs-In :
    (a : Ast) (ctes : Ctes) (r : Ref) → InCtes a ctes → In r (collect_refs a) → In r (cte_refs ctes)
unfolding cte_refs
cte_refs-In a no_ctes r h m = absurd h
cte_refs-In a (and_cte name base more ctes) r (inl e) m =
    In-append_left r (collect_refs base ++ collect_refs more) (cte_refs ctes) (
      In-append_left r (collect_refs base) (collect_refs more)
        (subst (λ x. In r (collect_refs x)) e m))
cte_refs-In a (and_cte name base more ctes) r (inr (inl e)) m =
    In-append_left r (collect_refs base ++ collect_refs more) (cte_refs ctes) (
      In-append_right r (collect_refs base) (collect_refs more)
        (subst (λ x. In r (collect_refs x)) e m))
cte_refs-In a (and_cte name base more ctes) r (inr (inr h)) m =
    In-append_right r (collect_refs base ++ collect_refs more) (cte_refs ctes)
      (cte_refs-In a ctes r h m)

-- One of six lists joined from the left.
module _ (r : Ref) (a b c d e f : List Ref) where
  abbrev all_six : List Ref
  all_six = a ++ b ++ c ++ d ++ e ++ f

  In-first : In r a → In r all_six
  In-first m = In-append_left r (a ++ b ++ c ++ d ++ e) f (
      In-append_left r (a ++ b ++ c ++ d) e
        (In-append_left r (a ++ b ++ c) d (In-append_left r (a ++ b) c (In-append_left r a b m))))

  In-second : In r b → In r all_six
  In-second m = In-append_left r (a ++ b ++ c ++ d ++ e) f (
      In-append_left r (a ++ b ++ c ++ d) e
        (In-append_left r (a ++ b ++ c) d (In-append_left r (a ++ b) c (In-append_right r a b m))))

  In-later : In r c ⊎ (In r d ⊎ (In r e ⊎ In r f)) → In r all_six
  In-later (inl m) = In-append_left r (a ++ b ++ c ++ d ++ e) f (
      In-append_left r (a ++ b ++ c ++ d) e
        (In-append_left r (a ++ b ++ c) d (In-append_right r (a ++ b) c m)))
  In-later (inr (inl m)) =
      In-append_left r (a ++ b ++ c ++ d ++ e) f
        (In-append_left r (a ++ b ++ c ++ d) e (In-append_right r (a ++ b ++ c) d m))
  In-later (inr (inr (inl m))) =
      In-append_left r (a ++ b ++ c ++ d ++ e) f (In-append_right r (a ++ b ++ c ++ d) e m)
  In-later (inr (inr (inr m))) = In-append_right r (a ++ b ++ c ++ d ++ e) f m

collect_refs-table :
    (ast : Ast) (t : Table) (r : Ref)
    → HasTable t ast
    → In r (table_refs t)
    → In r (collect_refs ast)
unfolding collect_refs
collect_refs-table absent t r h m = absurd h
collect_refs-table (query from joins u i x w) t r (inl e) m =
    In-first r (table_refs from) (tables_refs joins) (set_refs u) (set_refs i) (set_refs x)
      (cte_refs w) (subst (λ y. In r (table_refs y)) e m)
collect_refs-table (query from joins u i x w) t r (inr h) m =
    In-second r (table_refs from) (tables_refs joins) (set_refs u) (set_refs i) (set_refs x)
      (cte_refs w) (tables_refs-In t joins r h m)

collect_refs-leg :
    (ast a : Ast) (r : Ref) → HasLeg a ast → In r (collect_refs a) → In r (collect_refs ast)
unfolding collect_refs
collect_refs-leg absent a r h m = absurd h
collect_refs-leg (query from joins u i x w) a r h m =
    In-later r (table_refs from) (tables_refs joins) (set_refs u) (set_refs i) (set_refs x)
      (cte_refs w) (where_found h)
  where
    where_found :
        InSet a u ⊎ (InSet a i ⊎ (InSet a x ⊎ InCtes a w))
        → In r (set_refs u) ⊎ (In r (set_refs i) ⊎ (In r (set_refs x) ⊎ In r (cte_refs w)))
    where_found (inl k) = inl (set_refs-In a u r k m)
    where_found (inr (inl k)) = inr (inl (set_refs-In a i r k m))
    where_found (inr (inr (inl k))) = inr (inr (inl (set_refs-In a x r k m)))
    where_found (inr (inr (inr k))) = inr (inr (inr (cte_refs-In a w r k m)))

-- Each reference that stands in a query is collected.
pub collect_refs-Mentions : {r : Ref} {ast : Ast} → Mentions r ast → In r (collect_refs ast)
collect_refs-Mentions {r} {ast} (as_table t h named_so) =
    collect_refs-table ast t r h (table_refs-Names t r named_so)
collect_refs-Mentions {r} {ast} (in_table t h m) =
    collect_refs-table ast t r h (table_refs-nested t r (collect_refs-Mentions m))
collect_refs-Mentions {r} {ast} (in_leg a h m) =
    collect_refs-leg ast a r h (collect_refs-Mentions m)
