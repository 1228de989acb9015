-- ===== src/Pushdown/Whole.antt =====
-- The parts of a statement around its condition, and the statement as a whole. (pushdown.ts)
use zero_datafabric.Common.{
  ℕ, ◌≡◌, refl, inl, inr, Bool-cases, arith, String, Bool, true, false, ◌||◌, Option, none, some,
  List, [], ◌∷◌, ◌++◌, map, all, length, if◌then◌else◌, ℤ, text_eq, concat, includes,
}
use zero_datafabric.Policy.Masks.{decimal}
use zero_datafabric.Pushdown.Names.{
  Dialect, postgres, mysql, snowflake, oracle, join_with, quote_name, quote_column,
}
use zero_datafabric.Pushdown.Grouping.{
  GroupBy, PushedAggregate, group_by_sql, group_select_sql, agg_expr_sql,
}
use zero_datafabric.Pushdown.Conditions.{where_sql}
use zero_datafabric.Pushdown.Statement.{
  CanonicalQuery, OrderBy, select_item, aliased, plain_columns, columns_sql, table_sql, group_sql,
  order_item, order_sql, at_least_zero, above_zero, number_part, fetch_word, paging_sql, to_sql,
}
use zero_datafabric.Pushdown.Counts.{
  mark, clean, count_code, count-concat, count-clean, clean-concat, clean-around, clean-join,
  clean-map, clean-quote_name, clean-quote_column, clean-decimal,
}
use zero_datafabric.Pushdown.Grouped.{
  clean-group_by_sql, clean-group_select_sql, clean-agg_expr_sql,
}
use zero_datafabric.Pushdown.Balance.{count-where_sql}

clean-select_item : (d : Dialect) (c : String) → clean c ≡ true → clean (select_item d c) ≡ true
unfolding select_item
clean-select_item d c h = elim (Bool-cases (text_eq c "*" || includes "(" c || includes " " c)) [
  | inl e ↦ rw e h
  | inr e ↦ rw e (clean-quote_column d c)
]

clean-items :
    (d : Dialect) (cs : List String)
    → all clean cs ≡ true
    → all clean (map (select_item d) cs) ≡ true
clean-items d [] h = refl
clean-items d (c ∷ cs) h =
    ground (arith, clean-select_item d c (ground arith), clean-items d cs (ground arith))

clean-plain_columns :
    (d : Dialect) (cs : List String) → all clean cs ≡ true → clean (plain_columns d cs) ≡ true
clean-plain_columns d [] h = refl
clean-plain_columns d (c ∷ cs) h =
    clean-join ", " (map (select_item d) (c ∷ cs)) refl (clean-items d (c ∷ cs) h)

all-append :
    (xs ys : List String) → all clean xs ≡ true → all clean ys ≡ true → all clean (xs ++ ys) ≡ true
all-append [] ys h k = k
all-append (x ∷ xs) ys h k = ground (arith, all-append xs ys (ground arith) k)

clean-columns_sql :
    (d : Dialect) (q : CanonicalQuery) → all clean q.select ≡ true → clean (columns_sql d q) ≡ true
unfolding columns_sql
clean-columns_sql d q h =
    chosen (map (group_select_sql d) q.group_by ++ map (aliased d) q.aggregates) (
      all-append (map (group_select_sql d) q.group_by) (map (aliased d) q.aggregates)
        (clean-map (group_select_sql d) q.group_by (clean-group_select_sql d))
        (clean-map (aliased d) q.aggregates (clean-aliased d)))
  where
    clean-aliased : (d : Dialect) (a : PushedAggregate) → clean (aliased d a) ≡ true
    clean-aliased d a =
        clean-around (agg_expr_sql d a) " AS " (quote_name d a.alias) (clean-agg_expr_sql d a) refl
          (clean-quote_name d a.alias)

    chosen :
        (ts : List String)
        → all clean ts ≡ true
        → clean (elim ts [ [] ↦ plain_columns d q.select | t ∷ us ↦ join_with ", " (t ∷ us) ])
          ≡ true
    chosen [] k = clean-plain_columns d q.select h
    chosen (t ∷ ts) k = clean-join ", " (t ∷ ts) refl k

clean-table_sql :
    (d : Dialect) (schema : Option String) (table : String)
    → clean (table_sql d schema table) ≡ true
unfolding table_sql
clean-table_sql d none table = clean-quote_name d table
clean-table_sql d (some schema) table = elim (Bool-cases (text_eq schema "")) [
  | inl e ↦ rw e (clean-quote_name d table)
  | inr e ↦ rw e (
      clean-around (quote_name d schema) "." (quote_name d table) (clean-quote_name d schema) refl
        (clean-quote_name d table))
]

clean-group_sql : (d : Dialect) (gs : List GroupBy) → clean (group_sql d gs) ≡ true
unfolding group_sql
clean-group_sql d [] = refl
clean-group_sql d (g ∷ gs) =
    clean-concat " GROUP BY " (join_with ", " (map (group_by_sql d) (g ∷ gs))) refl (
      clean-join ", " (map (group_by_sql d) (g ∷ gs)) refl
        (clean-map (group_by_sql d) (g ∷ gs) (clean-group_by_sql d)))

clean-order_item : (d : Dialect) (o : OrderBy) → clean (order_item d o) ≡ true
clean-order_item d o =
    clean-around (quote_column d o.field) " " (if o.descending then "DESC" else "ASC")
      (clean-quote_column d o.field) refl (direction o.descending)
  where
    direction : (b : Bool) → clean (if b then "DESC" else "ASC") ≡ true
    direction true = refl
    direction false = refl

clean-order_sql : (d : Dialect) (os : List OrderBy) → clean (order_sql d os) ≡ true
unfolding order_sql
clean-order_sql d [] = refl
clean-order_sql d (o ∷ os) =
    clean-concat " ORDER BY " (join_with ", " (map (order_item d) (o ∷ os))) refl (
      clean-join ", " (map (order_item d) (o ∷ os)) refl
        (clean-map (order_item d) (o ∷ os) (clean-order_item d)))

clean-number_part :
    (before : String) (n : Option ℕ) (after : String)
    → clean before ≡ true
    → clean after ≡ true
    → clean (number_part before n after) ≡ true
clean-number_part before none after h k = refl
clean-number_part before (some n) after h k =
    clean-around before (decimal n) after h (clean-decimal n) k

clean-limit_offset :
    (l o : Option ℕ)
    → clean (concat (number_part " LIMIT " l "") (number_part " OFFSET " o "")) ≡ true
clean-limit_offset l o =
    clean-concat (number_part " LIMIT " l "") (number_part " OFFSET " o "")
      (clean-number_part " LIMIT " l "" refl refl) (clean-number_part " OFFSET " o "" refl refl)

clean-fetch_word : (o : Option ℕ) → clean (fetch_word o) ≡ true
clean-fetch_word none = refl
clean-fetch_word (some n) = refl

clean-paging_sql :
    (d : Dialect) (limit offset : Option ℤ) → clean (paging_sql d limit offset) ≡ true
unfolding paging_sql
clean-paging_sql oracle limit offset =
    let o : Option ℕ = above_zero offset in
    let l : Option ℕ = at_least_zero limit in
    clean-concat (number_part " OFFSET " o " ROWS") (number_part (fetch_word o) l " ROWS ONLY")
      (clean-number_part " OFFSET " o " ROWS" refl refl)
      (clean-number_part (fetch_word o) l " ROWS ONLY" (clean-fetch_word o) refl)
clean-paging_sql postgres limit offset =
    clean-limit_offset (at_least_zero limit) (above_zero offset)
clean-paging_sql mysql limit offset = clean-limit_offset (at_least_zero limit) (above_zero offset)
clean-paging_sql snowflake limit offset =
    clean-limit_offset (at_least_zero limit) (above_zero offset)

-- A compiled statement holds exactly as many placeholders as values are bound (`$`, `:` or `?`, by
-- the dialect), when no selected expression holds one of these characters: whatever the names of
-- tables, columns, aliases and operators are, they add none.
pub to_sql-balanced :
    (d : Dialect) (q : CanonicalQuery)
    → all clean q.select ≡ true
    → count_code (mark d) (to_sql d q).text ≡ length (to_sql d q).params
unfolding to_sql
to_sql-balanced d q h =
    let conditions : String = (where_sql d q.filter).0 in
    let table : String = table_sql d q.schema q.table in
    let end : String =
      concat (group_sql d q.group_by)
        (concat (order_sql d q.order_by) (paging_sql d q.limit q.offset)) in
    let end_clean : clean end ≡ true =
      clean-around (group_sql d q.group_by) (order_sql d q.order_by) (paging_sql d q.limit q.offset)
        (clean-group_sql d q.group_by) (clean-order_sql d q.order_by)
        (clean-paging_sql d q.limit q.offset) in
    omega (
      arith,
      count-concat (mark d) "SELECT "
          (concat (columns_sql d q) (concat " FROM " (concat table (concat conditions end)))),
      count-concat (mark d) (columns_sql d q)
          (concat " FROM " (concat table (concat conditions end))),
      count-concat (mark d) " FROM " (concat table (concat conditions end)),
      count-concat (mark d) table (concat conditions end),
      count-concat (mark d) conditions end,
      count-clean d "SELECT " refl,
      count-clean d (columns_sql d q) (clean-columns_sql d q h),
      count-clean d " FROM " refl,
      count-clean d table (clean-table_sql d q.schema q.table),
      count-clean d end end_clean,
      count-where_sql d q.filter,
    )
