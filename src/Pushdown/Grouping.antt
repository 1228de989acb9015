-- ===== src/Pushdown/Grouping.antt =====
-- Grouping columns and aggregates as SQL text. (pushdown.ts)
use zero_datafabric.Common.{
  ℕ, ◌/◌, ◌%◌, String, Option, none, some, if◌then◌else◌, ◌==◌, or_else, text_eq, concat,
}
use zero_datafabric.Policy.Masks.{decimal}
use zero_datafabric.Pushdown.Names.{Dialect, mysql, oracle, quote_name, quote_column}

pub data DateInterval : Type 0 where
  minute hour day week month quarter year : DateInterval

pub data GroupBy : Type 0 where
  field : String → GroupBy
  bucket : String → DateInterval → GroupBy

pub data PushedFunc : Type 0 where
  count_rows sum_of min_of max_of avg_of distinct_count percentile other_name : PushedFunc

-- No column means all of the row.
pub record PushedAggregate : Type 0 where
  pub func : PushedFunc
  pub column : Option String
  pub alias : String
  pub percent : Option ℕ

unfoldable pub interval_name : DateInterval → String
interval_name minute = "minute"
interval_name hour = "hour"
interval_name day = "day"
interval_name week = "week"
interval_name month = "month"
interval_name quarter = "quarter"
interval_name year = "year"

unfoldable pub group_by_sql : Dialect → GroupBy → String
unfolding quote_column interval_name
group_by_sql dialect (field name) = quote_column dialect name
group_by_sql mysql (bucket name every) = concat "DATE(" (concat (quote_column mysql name) ")")
group_by_sql oracle (bucket name every) = concat "TRUNC(" (concat (quote_column oracle name) ")")
group_by_sql dialect (bucket name every) =
    concat "date_trunc('"
      (concat (interval_name every) (concat "', " (concat (quote_column dialect name) ")")))

unfoldable pub group_select_sql : Dialect → GroupBy → String
unfolding group_by_sql quote_column quote_name
group_select_sql dialect (field name) = quote_column dialect name
group_select_sql dialect (bucket name every) =
    concat (group_by_sql dialect (bucket name every)) (concat " AS " (quote_name dialect name))

-- `p / 100` as JavaScript prints it: without zeros at its end.
unfoldable pub hundredths : ℕ → String
hundredths p =
    if p % 100 == 0
    then decimal (p / 100)
    else if p % 10 == 0
    then concat (decimal (p / 100)) (concat "." (decimal (p % 100 / 10)))
    else concat (decimal (p / 100))
        (concat "." (concat (decimal (p % 100 / 10)) (decimal (p % 10))))

abbrev pub call_of : String → String → String
call_of name inner = concat name (concat "(" (concat inner ")"))

abbrev pub column_or_star : Dialect → Option String → String
column_or_star dialect none = "*"
column_or_star dialect (some c) = if text_eq c "" then "*" else quote_column dialect c

abbrev pub percentile_sql : Dialect → String → String → String
percentile_sql mysql p col = call_of "AVG" col
percentile_sql _ p col =
    concat (call_of "percentile_cont" p) (concat " WITHIN GROUP (ORDER BY " (concat col ")"))

unfoldable pub agg_expr_sql : Dialect → PushedAggregate → String
unfolding quote_column hundredths
agg_expr_sql dialect a =
    let col = column_or_star dialect a.column in
    elim (a.func) [
      | count_rows ↦ call_of "COUNT" col
      | distinct_count ↦ call_of "COUNT" (concat "DISTINCT " col)
      | sum_of ↦ call_of "SUM" col
      | min_of ↦ call_of "MIN" col
      | max_of ↦ call_of "MAX" col
      | avg_of ↦ call_of "AVG" col
      | percentile ↦ percentile_sql dialect (hundredths (or_else a.percent 95)) col
      | other_name ↦ "COUNT(*)"
    ]
