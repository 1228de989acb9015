-- ===== src/Aggregates/Raw.antt =====
-- backend/src/modules/query-engine/aggregate.ts: `aggregateRaw`.
use zero_datafabric.Common.{
  String, Bool, true, Option, none, some, List, [], ◌∷◌, ◌++◌, map, if◌then◌else◌, length, ℤ, pos,
  z_min, z_add, Value, num, is_present, Row, get, insert, has, concat, Assoc, lookup, or_else,
}
use zero_datafabric.Aggregates.{
  count_func, sum_func, min_func, max_func, avg_func, count_distinct, other_func, AggregateSpec,
  AggregatePlan, z_max, is_undefined, read_col, value_or_null, Cell, plain, average_of, numeric,
}
use zero_datafabric.Aggregates.Groups.{Key, Group, gather}

abbrev pub sum_key : String → String
sum_key s = concat s "__s"

abbrev pub count_key : String → String
count_key s = concat s "__c"

-- The grouping cells of a group, and its running state: numbers, and sets of values.
pub record RawGroup : Type 0 where
  pub cells : Row
  pub state : Row
  pub sets : Assoc (List Value)

-- `st[key] || 0`
abbrev pub number_in : String → Row → ℤ
number_in key st = elim (get key st) [ num n ↦ n | _ ↦ pos 0 ]

abbrev pub add_in : String → ℤ → Row → Row
add_in key n st = insert key (num (z_add (number_in key st) n)) st

abbrev pub bound_in : (ℤ → ℤ → ℤ) → String → ℤ → Row → Row
bound_in pick key n st =
    insert key (num (if is_undefined (get key st) then n else pick (number_in key st) n)) st

abbrev pub add_member : Value → List Value → List Value
add_member v xs = if has v xs then xs else xs ++ v ∷ []

module _ (parse_float : String → Option ℤ) where
  -- What an aggregate reads of a row; 1 where it has no column.
  abbrev pub raw_value : Option String → Row → Value
  raw_value none row = num (pos 1)
  raw_value (some c) row = read_col row c

  abbrev pub is_counted : Option String → Row → Bool
  is_counted none row = true
  is_counted (some c) row = is_present (read_col row c)

  -- The running numbers after one row, for one aggregate.
  unfoldable pub raw_fold : AggregateSpec → Row → Row → Row
  unfolding get insert numeric read_col
  raw_fold a row st = elim (a.func) [
    | count_func ↦ if is_counted a.column row then add_in a.alias (pos 1) st else st
    | sum_func ↦ add_in a.alias (numeric parse_float (raw_value a.column row)) st
    | min_func ↦ bound_in z_min a.alias (numeric parse_float (raw_value a.column row)) st
    | max_func ↦ bound_in z_max a.alias (numeric parse_float (raw_value a.column row)) st
    | avg_func ↦
        add_in (count_key a.alias) (pos 1)
          (add_in (sum_key a.alias) (numeric parse_float (raw_value a.column row)) st)
    | count_distinct ↦ st
    | other_func ↦ st
  ]

  abbrev pub raw_fold_all : List AggregateSpec → Row → Row → Row
  raw_fold_all [] row st = st
  raw_fold_all (a ∷ rest) row st = raw_fold_all rest row (raw_fold a row st)

  abbrev pub set_fold : AggregateSpec → Row → Assoc (List Value) → Assoc (List Value)
  set_fold a row sets = elim (a.func) [
    | count_distinct ↦
        insert a.alias (add_member (raw_value a.column row) (or_else (lookup a.alias sets) [])) sets
    | _ ↦ sets
  ]

  abbrev pub set_fold_all : List AggregateSpec → Row → Assoc (List Value) → Assoc (List Value)
  set_fold_all [] row sets = sets
  set_fold_all (a ∷ rest) row sets = set_fold_all rest row (set_fold a row sets)

  abbrev pub raw_key : AggregatePlan → Row → Key
  raw_key plan row = map (λ n. value_or_null (read_col row n)) plan.group_cols

  abbrev pub raw_cells : List String → Row → Row → Row
  raw_cells [] row acc = acc
  raw_cells (n ∷ ns) row acc = raw_cells ns row (insert n (value_or_null (read_col row n)) acc)

  abbrev pub new_group : AggregatePlan → Row → RawGroup
  new_group plan row = record { cells = raw_cells plan.group_cols row []; state = []; sets = [] }

  abbrev pub raw_step : AggregatePlan → Row → RawGroup → RawGroup
  raw_step plan row g = record {
    cells = g.cells;
    state = raw_fold_all plan.aggregates row g.state;
    sets = set_fold_all plan.aggregates row g.sets;
  }

  abbrev pub raw_groups : AggregatePlan → List Row → List (Group RawGroup)
  raw_groups plan rows = gather (raw_key plan) (new_group plan) (raw_step plan) rows []

  unfoldable pub raw_cell : AggregateSpec → RawGroup → Cell
  unfolding get lookup
  raw_cell a g = elim (a.func) [
    | avg_func ↦
        average_of (number_in (sum_key a.alias) g.state) (number_in (count_key a.alias) g.state)
    | count_distinct ↦ plain (num (pos (length (or_else (lookup a.alias g.sets) []))))
    | count_func ↦ plain (num (number_in a.alias g.state))
    | _ ↦ plain (value_or_null (get a.alias g.state))
  ]

  abbrev pub raw_row : AggregatePlan → RawGroup → List (String × Cell)
  raw_row plan g =
      map (λ n. (n, plain (get n g.cells))) plan.group_cols
      ++ map (λ a. (a.alias, raw_cell a g)) plan.aggregates

  unfoldable pub aggregate_raw : AggregatePlan → List Row → List (List (String × Cell))
  unfolding gather raw_fold raw_cell read_col insert lookup has
  aggregate_raw plan rows = map (λ g. raw_row plan g.acc) (raw_groups plan rows)
