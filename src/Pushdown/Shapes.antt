-- ===== src/Pushdown/Shapes.antt =====
-- The text of a statement is that of the shape of its filter, without the values. (pushdown.ts)
use zero_datafabric.Common.{
  ◌≡◌, refl, sym, ap, ◌∙◌, arith, String, List, [], ◌∷◌, ◌++◌, length, concat, Assoc,
}
use zero_datafabric.Policy.{UserCondition, UserFilter}
use zero_datafabric.Pushdown.Names.{Dialect, join_with, quote_column}
use zero_datafabric.Pushdown.Conditions.{
  Params, condition_sql, column_sql, filter_sql, where_sql, split_ops,
}
use zero_datafabric.Pushdown.Statement.{
  CanonicalQuery, columns_sql, table_sql, group_sql, order_sql, paging_sql, to_sql,
}
use zero_datafabric.Pushdown.Shaped.{
  Shape, shape_of, column_shape, filter_shape, arities, filter_arity, shape_text, column_texts,
  shape_texts, Shaped, condition_sql-Shaped,
}

pub column_sql-Shaped :
    (d : Dialect) (col : String) (vs : List (String × UserCondition)) (params : Params)
    → Shaped
        (column_sql d col vs params)
        (column_texts d col (length params) (column_shape vs))
        params
        (arities (column_shape vs))
unfolding column_sql
column_sql-Shaped d col [] params = (refl, omega arith)
column_sql-Shaped d col ((op, v) ∷ rest) params =
    let step : Params = (condition_sql d col op v params).1 in
    let (text, count) = condition_sql-Shaped d col op v params in
    let (texts, counts) = column_sql-Shaped d col rest step in
    (
      ap (λ t. t ∷ (column_sql d col rest step).0) text
          ∙ ap (λ ts. shape_text d col op (length params) (shape_of op v) ∷ ts)
              (texts ∙ ap (λ n. column_texts d col n (column_shape rest)) count),
      omega arith,
    )

pub filter_sql-Shaped :
    (d : Dialect) (f : UserFilter) (params : Params)
    → Shaped
        (filter_sql d f params)
        (shape_texts d (length params) (filter_shape f))
        params
        (filter_arity (filter_shape f))
unfolding filter_sql
filter_sql-Shaped d [] params = (refl, omega arith)
filter_sql-Shaped d ((key, v) ∷ rest) params =
    let col : String = quote_column d key in
    let step : Params = (column_sql d col (split_ops v) params).1 in
    let (text, count) = column_sql-Shaped d col (split_ops v) params in
    let (texts, counts) = filter_sql-Shaped d rest step in
    (
      ap (λ t. t ++ (filter_sql d rest step).0) text
          ∙ ap (λ ts. column_texts d col (length params) (column_shape (split_ops v)) ++ ts)
              (texts ∙ ap (λ n. shape_texts d n (filter_shape rest)) count),
      omega arith,
    )

-- The condition of the statement, from the shape of its filter.
abbrev pub where_text : Dialect → Assoc (List (String × Shape)) → String
where_text d [] = ""
where_text d (s ∷ rest) = concat " WHERE " (join_with " AND " (shape_texts d 0 (s ∷ rest)))

pub where_sql-Shaped :
    (d : Dialect) (f : UserFilter)
    → Shaped (where_sql d f) (where_text d (filter_shape f)) [] (filter_arity (filter_shape f))
unfolding where_sql
where_sql-Shaped d [] = (refl, refl)
where_sql-Shaped d (entry ∷ rest) =
    let (texts, count) = filter_sql-Shaped d (entry ∷ rest) [] in
    (ap (λ ts. concat " WHERE " (join_with " AND " ts)) texts, count)

-- The statement around its condition.
abbrev pub statement_around : Dialect → CanonicalQuery → String → String
statement_around d q conditions = concat "SELECT " (
    concat (columns_sql d q) (
      concat " FROM " (
        concat (table_sql d q.schema q.table) (
          concat conditions (
            concat (group_sql d q.group_by)
              (concat (order_sql d q.order_by) (paging_sql d q.limit q.offset)))))))

abbrev pub with_filter : CanonicalQuery → UserFilter → CanonicalQuery
with_filter q f = record {
  schema = q.schema;
  table = q.table;
  select = q.select;
  filter = f;
  order_by = q.order_by;
  limit = q.limit;
  offset = q.offset;
  group_by = q.group_by;
  aggregates = q.aggregates;
}

-- Two filters of one shape (the same columns and operators, lists of the same length, null where
-- the other has null) compile to one text with the same number of bound values: no value reaches
-- the text.
pub to_sql-same_shape :
    (d : Dialect) (q : CanonicalQuery) (f g : UserFilter)
    → filter_shape f ≡ filter_shape g
    → ((to_sql d (with_filter q f)).text ≡ (to_sql d (with_filter q g)).text)
      × (length (to_sql d (with_filter q f)).params ≡ length (to_sql d (with_filter q g)).params)
unfolding to_sql
to_sql-same_shape d q f g same =
    let (t, n) = where_sql-Shaped d f in
    let (t', n') = where_sql-Shaped d g in
    (
      ap (statement_around d q) (t ∙ ap (where_text d) same ∙ sym t'),
      (let k = ap filter_arity same in omega arith),
    )
