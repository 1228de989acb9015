-- ===== src/Aggregates/Merging.antt =====
-- backend/src/modules/query-engine/aggregate.ts: `mergePartials`.
use zero_datafabric.Common.{
  String, Option, List, [], ◌∷◌, ◌++◌, map, if◌then◌else◌, ℤ, z_min, z_add, Value, null, num,
  is_present, Row, get, insert,
}
use zero_datafabric.Aggregates.{
  count_func, sum_func, min_func, max_func, avg_func, count_distinct, other_func, AggregateSpec,
  AggregatePlan, sum_alias, count_alias, z_max, is_undefined, base, Cell, plain, average_of,
  numeric,
}
use zero_datafabric.Aggregates.Groups.{Key, Group, gather}

module _ (parse_float : String → Option ℤ) where
  -- `row[n] ?? row[base(n)] ?? null`
  abbrev pub group_value : Row → String → Value
  group_value row n =
      if is_present (get n row)
      then get n row
      else if is_present (get (base n) row)
      then get (base n) row
      else null

  abbrev pub key_of : AggregatePlan → Row → Key
  key_of plan row = map (group_value row) plan.group_cols

  abbrev pub start_acc : List String → Row → Row → Row
  start_acc [] row acc = acc
  start_acc (n ∷ ns) row acc = start_acc ns row (insert n (group_value row n) acc)

  abbrev pub new_acc : AggregatePlan → Row → Row
  new_acc plan row = start_acc plan.group_cols row []

  unfoldable pub add_to : String → Row → Row → Row
  unfolding get insert numeric
  add_to name row acc =
      insert name
        (num (z_add (numeric parse_float (get name acc)) (numeric parse_float (get name row)))) acc

  unfoldable pub bound_by : (ℤ → ℤ → ℤ) → String → Row → Row → Row
  unfolding get insert numeric
  bound_by pick name row acc =
      insert name
        (if is_undefined (get name acc)
          then get name row
          else num (pick (numeric parse_float (get name acc)) (numeric parse_float (get name row))))
        acc

  -- The body of the loop over the aggregates.
  unfoldable pub fold_in : AggregateSpec → Row → Row → Row
  unfolding add_to bound_by
  fold_in a row acc = elim (a.func) [
    | avg_func ↦ add_to (count_alias a.alias) row (add_to (sum_alias a.alias) row acc)
    | count_func ↦ add_to a.alias row acc
    | sum_func ↦ add_to a.alias row acc
    | count_distinct ↦ add_to a.alias row acc
    | min_func ↦ bound_by z_min a.alias row acc
    | max_func ↦ bound_by z_max a.alias row acc
    | other_func ↦ acc
  ]

  unfoldable pub fold_all : List AggregateSpec → Row → Row → Row
  unfolding fold_in
  fold_all [] row acc = acc
  fold_all (a ∷ rest) row acc = fold_all rest row (fold_in a row acc)

  abbrev pub merged_groups : AggregatePlan → List Row → List (Group Row)
  merged_groups plan rows = gather (key_of plan) (new_acc plan) (fold_all plan.aggregates) rows []

  -- The cell of an aggregate, once all rows are in.
  unfoldable pub final_cell : AggregateSpec → Row → Cell
  unfolding get numeric
  final_cell a acc = elim (a.func) [
    | avg_func ↦
        average_of (numeric parse_float (get (sum_alias a.alias) acc))
          (numeric parse_float (get (count_alias a.alias) acc))
    | _ ↦ plain (get a.alias acc)
  ]

  abbrev pub final_row : AggregatePlan → Row → List (String × Cell)
  final_row plan acc =
      map (λ n. (n, plain (get n acc))) plan.group_cols
      ++ map (λ a. (a.alias, final_cell a acc)) plan.aggregates

  unfoldable pub merge_partials : AggregatePlan → List Row → List (List (String × Cell))
  unfolding gather fold_all final_cell base
  merge_partials plan rows = map (λ g. final_row plan g.acc) (merged_groups plan rows)
