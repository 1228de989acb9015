-- ===== src/Aggregates.antt =====
-- backend/src/modules/query-engine/aggregate.ts: what each source computes, the merge of the
-- sources' groups (Merging), and the aggregation of rows in one pass (Raw). Rows hold scalars, so
-- the sets of raw values that a source may send for COUNT_DISTINCT do not occur; grouping columns
-- are given by name.
pub mod Groups
pub mod Merging
pub mod Raw
pub mod Totals
pub mod Merged
pub mod Counted
pub mod Federated
pub mod Agreement
mod Tests
use zero_datafabric.Common.{
  String, Bool, true, false, Option, none, some, List, [], ◌∷◌, ◌++◌, map, if◌then◌else◌, ℤ, pos,
  z_leb, Value, undefined, null, num, str, is_present, Row, get, concat, text_eq,
}
use zero_datafabric.NetGuard.Addresses.{split}
use zero_datafabric.Constraints.{owns}

pub data AggregateFunc : Type 0 where
  count_func sum_func min_func max_func avg_func count_distinct other_func : AggregateFunc

pub record AggregateSpec : Type 0 where
  pub func : AggregateFunc
  pub column : Option String
  pub alias : String

pub record AggregatePlan : Type 0 where
  pub group_cols : List String
  pub aggregates : List AggregateSpec

abbrev pub sum_alias : String → String
sum_alias s = concat "__sum__" s

abbrev pub count_alias : String → String
count_alias s = concat "__cnt__" s

abbrev pub expand_average : AggregateSpec → List AggregateSpec
expand_average a = elim (a.func) [
  | avg_func ↦
      record { func = sum_func; column = a.column; alias = sum_alias a.alias }
      ∷ record { func = count_func; column = a.column; alias = count_alias a.alias }
      ∷ []
  | _ ↦ a ∷ []
]

abbrev pub expand_averages : List AggregateSpec → List AggregateSpec
expand_averages [] = []
expand_averages (a ∷ rest) = expand_average a ++ expand_averages rest

unfoldable pub partial_spec : AggregatePlan → AggregatePlan
partial_spec plan = record {
  group_cols = plan.group_cols;
  aggregates = expand_averages plan.aggregates;
}

abbrev pub z_max : ℤ → ℤ → ℤ
z_max a b = if z_leb a b then b else a

abbrev pub is_undefined : Value → Bool
is_undefined undefined = true
is_undefined _ = false

abbrev pub last_part : String → List String → String
last_part p [] = p
last_part p (q ∷ ps) = last_part q ps

-- `base`: what stands after the last dot
unfoldable pub base : String → String
unfolding split
base path = last_part "" (split "." path)

abbrev pub value_or_null : Value → Value
value_or_null v = if is_present v then v else null

-- The first value whose key has the base name.
abbrev pub by_base : String → Row → Value
by_base b [] = undefined
by_base b ((k, v) ∷ row) = if text_eq (base k) b then v else by_base b row

-- `readCol`
unfoldable pub read_col : Row → String → Value
unfolding base get
read_col row name =
    if owns name row
    then get name row
    else if owns (base name) row
    then get (base name) row
    else by_base (base name) row

-- A cell of a result: a value, or the mean of a sum and a count that is not 0.
pub data Cell : Type 0 where
  plain : Value → Cell
  mean : ℤ → ℤ → Cell

abbrev pub average_of : ℤ → ℤ → Cell
average_of sum count = if z_leb count (pos 0) then plain null else mean sum count

-- `numeric`, by the number that `parseFloat` reads from a text.
unfoldable pub numeric : (String → Option ℤ) → Value → ℤ
numeric parse_float (num n) = n
numeric parse_float (str s) = elim (parse_float s) [ none ↦ pos 0 | some n ↦ n ]
numeric parse_float _ = pos 0
