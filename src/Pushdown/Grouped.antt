-- ===== src/Pushdown/Grouped.antt =====
-- Grouping columns and aggregates hold no placeholder. (pushdown.ts)
use zero_datafabric.Common.{
  ℕ, ◌/◌, ◌%◌, ◌≡◌, refl, inl, inr, Bool-cases, String, true, Option, none, some, ◌==◌, or_else,
  text_eq, concat,
}
use zero_datafabric.Policy.Masks.{decimal}
use zero_datafabric.Pushdown.Names.{
  Dialect, postgres, mysql, snowflake, oracle, quote_name, quote_column,
}
use zero_datafabric.Pushdown.Grouping.{
  DateInterval, minute, hour, day, week, month, quarter, year, GroupBy, field, bucket,
  PushedAggregate, count_rows, sum_of, min_of, max_of, avg_of, distinct_count, percentile,
  other_name, interval_name, group_by_sql, group_select_sql, hundredths, call_of, column_or_star,
  percentile_sql, agg_expr_sql,
}
use zero_datafabric.Pushdown.Counts.{
  clean, clean-concat, clean-around, clean-quote_name, clean-quote_column, clean-decimal,
}

clean-interval_name : (i : DateInterval) → clean (interval_name i) ≡ true
unfolding interval_name
clean-interval_name minute = refl
clean-interval_name hour = refl
clean-interval_name day = refl
clean-interval_name week = refl
clean-interval_name month = refl
clean-interval_name quarter = refl
clean-interval_name year = refl

clean-date_trunc :
    (i : DateInterval) (col : String)
    → clean col ≡ true
    → clean (concat "date_trunc('" (concat (interval_name i) (concat "', " (concat col ")"))))
      ≡ true
clean-date_trunc i col h =
    clean-around "date_trunc('" (interval_name i) (concat "', " (concat col ")")) refl
      (clean-interval_name i) (clean-around "', " col ")" refl h refl)

pub clean-group_by_sql : (d : Dialect) (g : GroupBy) → clean (group_by_sql d g) ≡ true
unfolding group_by_sql
clean-group_by_sql d (field name) = clean-quote_column d name
clean-group_by_sql mysql (bucket name i) =
    clean-around "DATE(" (quote_column mysql name) ")" refl (clean-quote_column mysql name) refl
clean-group_by_sql oracle (bucket name i) =
    clean-around "TRUNC(" (quote_column oracle name) ")" refl (clean-quote_column oracle name) refl
clean-group_by_sql postgres (bucket name i) =
    clean-date_trunc i (quote_column postgres name) (clean-quote_column postgres name)
clean-group_by_sql snowflake (bucket name i) =
    clean-date_trunc i (quote_column snowflake name) (clean-quote_column snowflake name)

pub clean-group_select_sql : (d : Dialect) (g : GroupBy) → clean (group_select_sql d g) ≡ true
unfolding group_select_sql
clean-group_select_sql d (field name) = clean-quote_column d name
clean-group_select_sql d (bucket name i) =
    clean-around (group_by_sql d (bucket name i)) " AS " (quote_name d name)
      (clean-group_by_sql d (bucket name i)) refl (clean-quote_name d name)

clean-hundredths : (p : ℕ) → clean (hundredths p) ≡ true
unfolding hundredths
clean-hundredths p =
    let whole : clean (decimal (p / 100)) ≡ true = clean-decimal (p / 100) in
    let tenths : clean (decimal (p % 100 / 10)) ≡ true = clean-decimal (p % 100 / 10) in
    let two : clean (concat (decimal (p % 100 / 10)) (decimal (p % 10))) ≡ true =
      clean-concat (decimal (p % 100 / 10)) (decimal (p % 10)) tenths (clean-decimal (p % 10)) in
    elim (Bool-cases (p % 100 == 0)) [
      | inl e ↦ rw e whole
      | inr e ↦ elim (Bool-cases (p % 10 == 0)) [
        | inl k ↦
            rw (e, k)
              (clean-around (decimal (p / 100)) "." (decimal (p % 100 / 10)) whole refl tenths)
        | inr k ↦
            rw (e, k)
              (clean-around (decimal (p / 100)) "."
                (concat (decimal (p % 100 / 10)) (decimal (p % 10))) whole refl two)
      ]
    ]

clean-call_of :
    (name inner : String)
    → clean name ≡ true
    → clean inner ≡ true
    → clean (call_of name inner) ≡ true
clean-call_of name inner h k =
    clean-concat name (concat "(" (concat inner ")")) h (clean-around "(" inner ")" refl k refl)

clean-column_or_star : (d : Dialect) (c : Option String) → clean (column_or_star d c) ≡ true
clean-column_or_star d none = refl
clean-column_or_star d (some c) = elim (Bool-cases (text_eq c "")) [
  | inl e ↦ rw e refl
  | inr e ↦ rw e (clean-quote_column d c)
]

clean-percentile_cont :
    (p col : String)
    → clean p ≡ true
    → clean col ≡ true
    → clean
        (concat (call_of "percentile_cont" p) (concat " WITHIN GROUP (ORDER BY " (concat col ")")))
      ≡ true
clean-percentile_cont p col h k =
    clean-around (call_of "percentile_cont" p) " WITHIN GROUP (ORDER BY " (concat col ")")
      (clean-call_of "percentile_cont" p refl h) refl (clean-concat col ")" k refl)

clean-percentile_sql :
    (d : Dialect) (p col : String)
    → clean p ≡ true
    → clean col ≡ true
    → clean (percentile_sql d p col) ≡ true
clean-percentile_sql mysql p col h k = clean-call_of "AVG" col refl k
clean-percentile_sql postgres p col h k = clean-percentile_cont p col h k
clean-percentile_sql snowflake p col h k = clean-percentile_cont p col h k
clean-percentile_sql oracle p col h k = clean-percentile_cont p col h k

pub clean-agg_expr_sql : (d : Dialect) (a : PushedAggregate) → clean (agg_expr_sql d a) ≡ true
unfolding agg_expr_sql
clean-agg_expr_sql d a =
    let col : String = column_or_star d a.column in
    let h : clean (column_or_star d a.column) ≡ true = clean-column_or_star d a.column in
    elim (a.func)
      as (λ f.
        clean (elim f [
          | count_rows ↦ call_of "COUNT" col
          | distinct_count ↦ call_of "COUNT" (concat "DISTINCT " col)
          | sum_of ↦ call_of "SUM" col
          | min_of ↦ call_of "MIN" col
          | max_of ↦ call_of "MAX" col
          | avg_of ↦ call_of "AVG" col
          | percentile ↦ percentile_sql d (hundredths (or_else a.percent 95)) col
          | other_name ↦ "COUNT(*)"
        ])
        ≡ true) [
          | count_rows ↦ clean-call_of "COUNT" col refl h
          | distinct_count ↦
              clean-call_of "COUNT" (concat "DISTINCT " col) refl
                (clean-concat "DISTINCT " col refl h)
          | sum_of ↦ clean-call_of "SUM" col refl h
          | min_of ↦ clean-call_of "MIN" col refl h
          | max_of ↦ clean-call_of "MAX" col refl h
          | avg_of ↦ clean-call_of "AVG" col refl h
          | percentile ↦
              clean-percentile_sql d (hundredths (or_else a.percent 95)) col
                (clean-hundredths (or_else a.percent 95)) h
          | other_name ↦ refl
        ]
