-- ===== src/Pushdown/Conditions.antt =====
-- Conditions and the values that they bind. (pushdown.ts)
use zero_datafabric.Common.{
  ℕ, ◌+◌, String, Bool, true, false, ◌&&◌, ◌||◌, List, [], ◌∷◌, ◌++◌, map, length, if◌then◌else◌,
  or_else, Value, undefined, null, str, nothing, one, many, text_eq, concat, has_prefix, Assoc,
  lookup,
}
use zero_datafabric.Policy.{Conditions, UserCondition, bare, operators, UserFilter}
use zero_datafabric.Policy.Masks.{show_value, decimal}
use zero_datafabric.Pushdown.Names.{Dialect, postgres, oracle, join_with, quote_column}

-- What is bound: an operand, or the object of a column that is no list of operators.
abbrev pub Params : Type 0
Params = List UserCondition

-- `SQL_OPERATORS`
abbrev pub sql_operators : Assoc String
sql_operators =
    ("$eq", "=")
    ∷ ("$ne", "!=")
    ∷ ("$gt", ">")
    ∷ ("$gte", ">=")
    ∷ ("$lt", "<")
    ∷ ("$lte", "<=")
    ∷ ("$like", "LIKE")
    ∷ ("$ilike", "ILIKE")
    ∷ ("$in", "IN")
    ∷ ("$match", "MATCH")
    ∷ ("$fuzzy", "MATCH")
    ∷ []

unfoldable pub sql_operator : String → String
unfolding lookup
sql_operator op = or_else (lookup op sql_operators) "="

-- The text of the placeholder of the value that stands at a place, from 1.
unfoldable pub placeholder : Dialect → ℕ → String
placeholder postgres n = concat "$" (decimal n)
placeholder oracle n = concat ":" (decimal n)
placeholder _ n = "?"

-- The closure `placeholder`: the value is pushed, then counted.
unfoldable pub bind : Dialect → UserCondition → Params → String × Params
unfolding placeholder
bind dialect v params = (placeholder dialect (length params + 1), params ++ v ∷ [])

unfoldable pub bind_all : Dialect → List Value → Params → List String × Params
unfolding bind
bind_all dialect [] params = ([], params)
bind_all dialect (v ∷ vs) params =
    let (p, bound) = bind dialect (bare (one v)) params in
    let (ps, last) = bind_all dialect vs bound in (p ∷ ps, last)

abbrev pub show_item : Value → String
show_item undefined = ""
show_item null = ""
show_item v = show_value v

-- `String(value)`
unfoldable pub show_condition : UserCondition → String
unfolding show_value join_with
show_condition (bare nothing) = "undefined"
show_condition (bare (one v)) = show_value v
show_condition (bare (many vs)) = join_with "," (map show_item vs)
show_condition (operators cs) = "[object Object]"

abbrev pub is_many : UserCondition → Bool
is_many (bare (many vs)) = true
is_many _ = false

abbrev pub is_null : UserCondition → Bool
is_null (bare (one null)) = true
is_null _ = false

abbrev pub list_items : UserCondition → List Value
list_items (bare (many vs)) = vs
list_items _ = []

unfoldable pub in_sql : Dialect → String → List Value → Params → String × Params
unfolding bind_all join_with
in_sql dialect col [] params = ("1 = 0", params)
in_sql dialect col (v ∷ vs) params =
    let (ps, bound) = bind_all dialect (v ∷ vs) params in
    (concat col (concat " IN (" (concat (join_with ", " ps) ")")), bound)

abbrev pub like_word : Dialect → String
like_word postgres = "ILIKE"
like_word _ = "LIKE"

abbrev pub is_search : String → Bool
is_search op = text_eq op "$match" || text_eq op "$fuzzy"

abbrev pub null_test : String → Bool
null_test op = text_eq op "$eq" || text_eq op "$ne"

unfoldable pub compared : Dialect → String → String → UserCondition → Params → String × Params
unfolding bind
compared dialect col word v params =
    let (p, bound) = bind dialect v params in
    (concat col (concat " " (concat word (concat " " p))), bound)

-- The body of the loop over a column's operators.
unfoldable pub condition_sql : Dialect → String → String → UserCondition → Params → String × Params
unfolding in_sql compared show_condition sql_operator
condition_sql dialect col op v params =
    if text_eq op "$in" && is_many v
    then in_sql dialect col (list_items v) params
    else if is_search op
    then compared dialect col (like_word dialect)
        (bare (one (str (concat "%" (concat (show_condition v) "%"))))) params
    else if is_null v && null_test op
    then (
      concat col (concat " IS " (concat (if text_eq op "$ne" then "NOT " else "") "NULL")),
      params,
    )
    else compared dialect col (sql_operator op) v params

abbrev pub operands : Conditions → List (String × UserCondition)
operands [] = []
operands ((op, o) ∷ cs) = (op, bare o) ∷ operands cs

abbrev pub all_operators : Conditions → Bool
all_operators [] = true
all_operators ((op, o) ∷ cs) = has_prefix "$" op && all_operators cs

-- `splitOps`
unfoldable pub split_ops : UserCondition → List (String × UserCondition)
unfolding has_prefix
split_ops (bare o) = ("$eq", bare o) ∷ []
split_ops (operators []) = ("$eq", operators []) ∷ []
split_ops (operators (c ∷ cs)) =
    if all_operators (c ∷ cs) then operands (c ∷ cs) else ("$eq", operators (c ∷ cs)) ∷ []

unfoldable pub column_sql :
    Dialect → String → List (String × UserCondition) → Params → List String × Params
unfolding condition_sql
column_sql dialect col [] params = ([], params)
column_sql dialect col ((op, v) ∷ rest) params =
    let (t, bound) = condition_sql dialect col op v params in
    let (ts, last) = column_sql dialect col rest bound in (t ∷ ts, last)

unfoldable pub filter_sql : Dialect → UserFilter → Params → List String × Params
unfolding column_sql split_ops quote_column
filter_sql dialect [] params = ([], params)
filter_sql dialect ((key, v) ∷ rest) params =
    let (ts, bound) = column_sql dialect (quote_column dialect key) (split_ops v) params in
    let (us, last) = filter_sql dialect rest bound in (ts ++ us, last)

unfoldable pub where_sql : Dialect → UserFilter → String × Params
unfolding filter_sql join_with
where_sql dialect [] = ("", [])
where_sql dialect (entry ∷ rest) =
    let (ts, params) = filter_sql dialect (entry ∷ rest) [] in
    (concat " WHERE " (join_with " AND " ts), params)
