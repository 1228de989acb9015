-- ===== src/Pushdown/Tests.antt =====
-- Statements of a small query, for the properties. (pushdown.ts)
use zero_datafabric.Common.{
  String, List, ◌≡◌, refl, true, none, some, [], ◌∷◌, length, pos, null, num, str, one, many,
}
use zero_datafabric.Policy.{UserFilter, bare, operators}
use zero_datafabric.Pushdown.Names.{postgres, mysql, oracle}
use zero_datafabric.Pushdown.Grouping.{bucket, day, sum_of, percentile}
use zero_datafabric.Pushdown.Conditions.{split_ops}
use zero_datafabric.Pushdown.Statement.{CanonicalQuery, to_sql}
use zero_datafabric.Pushdown.Counts.{mark, count_code}
use zero_datafabric.Pushdown.Shaped.{shape_of, filter_shape}
use zero_datafabric.Pushdown.Shapes.{with_filter, to_sql-same_shape}
use zero_datafabric.Policy.{Session, StoredPolicy, session}
use zero_datafabric.Policy.Blanking.Merges.{governed}
use zero_datafabric.Pushdown.Sessions.{to_sql-governed}
use zero_datafabric.Pushdown.Whole.{to_sql-balanced}

abbrev adults : UserFilter
adults =
    ("age", operators (("$gte", one (num (pos 18))) ∷ ("$lt", one (num (pos 65))) ∷ []))
    ∷ ("city", operators (("$in", many (str "Rome" ∷ str "Oslo" ∷ [])) ∷ []))
    ∷ ("gone", bare (one null))
    ∷ []

abbrev hostile : UserFilter
hostile =
    ("age", operators (("$gte", one (num (pos 0))) ∷ ("$lt", one (str "?;--")) ∷ []))
    ∷ ("city", operators (("$in", many (str "' OR 1=1" ∷ str "$9" ∷ [])) ∷ []))
    ∷ ("gone", bare (one null))
    ∷ []

abbrev people : CanonicalQuery
people = record {
  schema = some "crm";
  table = "people";
  select = "name" ∷ "a.age" ∷ [];
  filter = adults;
  order_by = record { field = "name"; descending = true } ∷ [];
  limit = some (pos 10);
  offset = some (pos 20);
  group_by = [];
  aggregates = [];
}

abbrev by_day : CanonicalQuery
by_day = record {
  schema = none;
  table = "sales?";
  select = [];
  filter = ("kind", operators (("$match", one (str "new")) ∷ [])) ∷ [];
  order_by = [];
  limit = some (pos 5);
  offset = none;
  group_by = bucket "sold:at" day ∷ [];
  aggregates =
      record { func = sum_of; column = some "price"; alias = "total"; percent = none }
      ∷ record { func = percentile; column = some "price"; alias = "p"; percent = some 7 }
      ∷ [];
}

people_text :
    (to_sql postgres people).text
    ≡ "SELECT \"name\", \"a\".\"age\" FROM \"crm\".\"people\" WHERE \"age\" >= $1 AND \"age\" < $2 AND \"city\" IN ($3, $4) AND \"gone\" IS NULL ORDER BY \"name\" DESC LIMIT 10 OFFSET 20"
unfolding to_sql
people_text = refl

by_day_text :
    (to_sql oracle by_day).text
    ≡ "SELECT TRUNC(\"SOLDAT\") AS \"SOLDAT\", SUM(\"PRICE\") AS \"TOTAL\", percentile_cont(0.07) WITHIN GROUP (ORDER BY \"PRICE\") AS \"P\" FROM \"SALES\" WHERE \"KIND\" LIKE :1 GROUP BY TRUNC(\"SOLDAT\") FETCH FIRST 5 ROWS ONLY"
unfolding to_sql
by_day_text = refl

shapes : filter_shape adults ≡ filter_shape hostile
unfolding shape_of split_ops
shapes = refl

to_sql-same_shape_example :
    ((to_sql postgres (with_filter people adults)).text
      ≡ (to_sql postgres (with_filter people hostile)).text)
    × (length (to_sql postgres (with_filter people adults)).params
        ≡ length (to_sql postgres (with_filter people hostile)).params)
to_sql-same_shape_example = to_sql-same_shape postgres people adults hostile shapes

to_sql-balanced_example :
    count_code (mark mysql) (to_sql mysql by_day).text ≡ length (to_sql mysql by_day).params
to_sql-balanced_example = to_sql-balanced mysql by_day refl

abbrev user_of : String → String → String → Session
user_of tenant region name = record {
  tenant_id = tenant;
  role = some "clerk";
  region = some region;
  username = some name;
}

abbrev own_rows : List StoredPolicy
own_rows =
    record {
      policy_name = "own";
      roles = "CLERK" ∷ [];
      row_filter =
          record { column = "owner"; operator = some "EQ"; value = session "username" }
          ∷ record { column = "tenant"; operator = none; value = session "tenant_id" }
          ∷ [];
      masking = [];
    }
    ∷ []

to_sql-governed_example :
    ((to_sql oracle (with_filter people (governed adults own_rows (user_of "t1" "EU" "ann")))).text
      ≡ (to_sql oracle
          (with_filter people (governed adults own_rows (user_of "t2" "US" "' OR 1=1")))).text)
    × (length
          (to_sql oracle
            (with_filter people (governed adults own_rows (user_of "t1" "EU" "ann")))).params
        ≡ length
            (to_sql oracle (
              with_filter people (governed adults own_rows (user_of "t2" "US" "' OR 1=1")))).params)
to_sql-governed_example =
    to_sql-governed oracle people adults own_rows (user_of "t1" "EU" "ann")
      (user_of "t2" "US" "' OR 1=1") refl
