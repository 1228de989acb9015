-- ===== src/Pushdown/Statement.antt =====
-- The statement around its conditions: projection, order and paging. (pushdown.ts)
use zero_datafabric.Common.{
  ℕ, suc, String, Bool, ◌||◌, Option, none, some, List, [], ◌∷◌, ◌++◌, map, if◌then◌else◌, ℤ, pos,
  text_eq, concat, includes,
}
use zero_datafabric.Policy.{UserFilter}
use zero_datafabric.Policy.Masks.{decimal}
use zero_datafabric.Pushdown.Names.{Dialect, oracle, join_with, quote_name, quote_column}
use zero_datafabric.Pushdown.Grouping.{
  GroupBy, PushedAggregate, group_by_sql, group_select_sql, agg_expr_sql,
}
use zero_datafabric.Pushdown.Conditions.{Params, where_sql}

pub record OrderBy : Type 0 where
  pub field : String
  pub descending : Bool

pub record CanonicalQuery : Type 0 where
  pub schema : Option String
  pub table : String
  pub select : List String
  pub filter : UserFilter
  pub order_by : List OrderBy
  pub limit : Option ℤ
  pub offset : Option ℤ
  pub group_by : List GroupBy
  pub aggregates : List PushedAggregate

pub record CompiledSql : Type 0 where
  pub text : String
  pub params : Params

unfoldable pub select_item : Dialect → String → String
unfolding quote_column includes
select_item dialect c =
    if text_eq c "*" || includes "(" c || includes " " c then c else quote_column dialect c

abbrev pub aliased : Dialect → PushedAggregate → String
aliased dialect a = concat (agg_expr_sql dialect a) (concat " AS " (quote_name dialect a.alias))

abbrev pub plain_columns : Dialect → List String → String
plain_columns dialect [] = "*"
plain_columns dialect (c ∷ cs) = join_with ", " (map (select_item dialect) (c ∷ cs))

unfoldable pub columns_sql : Dialect → CanonicalQuery → String
unfolding select_item agg_expr_sql group_select_sql quote_name join_with
columns_sql dialect q =
    let grouped = map (group_select_sql dialect) q.group_by ++ map (aliased dialect) q.aggregates in
    elim grouped [ [] ↦ plain_columns dialect q.select | t ∷ ts ↦ join_with ", " (t ∷ ts) ]

unfoldable pub table_sql : Dialect → Option String → String → String
unfolding quote_name
table_sql dialect none table = quote_name dialect table
table_sql dialect (some schema) table =
    if text_eq schema ""
    then quote_name dialect table
    else concat (quote_name dialect schema) (concat "." (quote_name dialect table))

unfoldable pub group_sql : Dialect → List GroupBy → String
unfolding group_by_sql join_with
group_sql dialect [] = ""
group_sql dialect (g ∷ gs) =
    concat " GROUP BY " (join_with ", " (map (group_by_sql dialect) (g ∷ gs)))

abbrev pub order_item : Dialect → OrderBy → String
order_item dialect o =
    concat (quote_column dialect o.field) (concat " " (if o.descending then "DESC" else "ASC"))

unfoldable pub order_sql : Dialect → List OrderBy → String
unfolding quote_column join_with
order_sql dialect [] = ""
order_sql dialect (o ∷ os) =
    concat " ORDER BY " (join_with ", " (map (order_item dialect) (o ∷ os)))

-- `typeof limit === 'number' && limit >= 0`, and the offset above 0.
abbrev pub at_least_zero : Option ℤ → Option ℕ
at_least_zero (some (pos n)) = some n
at_least_zero _ = none

abbrev pub above_zero : Option ℤ → Option ℕ
above_zero (some (pos (suc n))) = some (suc n)
above_zero _ = none

abbrev pub number_part : String → Option ℕ → String → String
number_part before none after = ""
number_part before (some n) after = concat before (concat (decimal n) after)

abbrev pub fetch_word : Option ℕ → String
fetch_word none = " FETCH FIRST "
fetch_word (some n) = " FETCH NEXT "

unfoldable pub paging_sql : Dialect → Option ℤ → Option ℤ → String
paging_sql oracle limit offset =
    concat (number_part " OFFSET " (above_zero offset) " ROWS")
      (number_part (fetch_word (above_zero offset)) (at_least_zero limit) " ROWS ONLY")
paging_sql _ limit offset =
    concat (number_part " LIMIT " (at_least_zero limit) "")
      (number_part " OFFSET " (above_zero offset) "")

unfoldable pub to_sql : Dialect → CanonicalQuery → CompiledSql
unfolding columns_sql table_sql where_sql group_sql order_sql paging_sql
to_sql dialect q =
    let (conditions, bound) = where_sql dialect q.filter in
    record {
      text = concat "SELECT " (
          concat (columns_sql dialect q) (
            concat " FROM " (
              concat (table_sql dialect q.schema q.table) (
                concat conditions (
                  concat (group_sql dialect q.group_by) (
                    concat (order_sql dialect q.order_by)
                      (paging_sql dialect q.limit q.offset)))))));
      params = bound;
    }
