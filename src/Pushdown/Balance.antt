-- ===== src/Pushdown/Balance.antt =====
-- A statement has one placeholder for each value that it binds. (pushdown.ts)
use zero_datafabric.Common.{
  ℕ, zero, suc, ◌+◌, ◌≡◌, refl, ap, inl, inr, Bool-cases, arith, String, true, List, [], ◌∷◌, ◌++◌,
  all, length, if◌then◌else◌, or_else, text_eq, concat, Assoc, lookup,
}
use zero_datafabric.Policy.{UserFilter}
use zero_datafabric.Policy.Masks.{decimal}
use zero_datafabric.Pushdown.Names.{
  Dialect, postgres, mysql, snowflake, oracle, join_with, quote_column,
}
use zero_datafabric.Pushdown.Conditions.{
  placeholder, sql_operator, sql_operators, like_word, is_search, where_sql,
}
use zero_datafabric.Pushdown.Counts.{
  mark, clean, count_code, count-concat, count-clean, clean-concat, clean-quote_column,
  clean-decimal,
}
use zero_datafabric.Pushdown.Shaped.{
  Shape, listed, void, single, arity, arities, filter_arity, filter_shape, places, word_of,
  shape_text, column_texts, shape_texts,
}
use zero_datafabric.Pushdown.Shapes.{where_text, where_sql-Shaped}

-- The placeholders of several texts.
abbrev total : ℕ → List String → ℕ
total n [] = 0
total n (t ∷ ts) = count_code n t + total n ts

total-append : (n : ℕ) (ts us : List String) → total n (ts ++ us) ≡ total n ts + total n us
total-append n [] us = omega arith
total-append n (t ∷ ts) us = omega (arith, total-append n ts us)

count-join :
    (d : Dialect) (separator : String) (ts : List String)
    → clean separator ≡ true
    → count_code (mark d) (join_with separator ts) ≡ total (mark d) ts
unfolding join_with
count-join d separator [] h = refl
count-join d separator (t ∷ []) h = omega arith
count-join d separator (t ∷ u ∷ ts) h =
    let rest : String = join_with separator (u ∷ ts) in
    omega (
      arith,
      count-concat (mark d) t (concat separator rest),
      count-concat (mark d) separator rest,
      count-clean d separator h,
      count-join d separator (u ∷ ts) h,
    )

-- A text between two that hold no placeholder.
count-after :
    (d : Dialect) (before s : String)
    → clean before ≡ true
    → count_code (mark d) (concat before s) ≡ count_code (mark d) s
count-after d before s h = omega (arith, count-concat (mark d) before s, count-clean d before h)

count-before :
    (d : Dialect) (s after : String)
    → clean after ≡ true
    → count_code (mark d) (concat s after) ≡ count_code (mark d) s
count-before d s after h = omega (arith, count-concat (mark d) s after, count-clean d after h)

count-placeholder : (d : Dialect) (n : ℕ) → count_code (mark d) (placeholder d n) ≡ 1
unfolding placeholder
count-placeholder postgres n = omega (arith, count-clean postgres (decimal n) (clean-decimal n))
count-placeholder oracle n = omega (arith, count-clean oracle (decimal n) (clean-decimal n))
count-placeholder mysql n = refl
count-placeholder snowflake n = refl

total-places : (d : Dialect) (n k : ℕ) → total (mark d) (places d n k) ≡ k
unfolding places
total-places d n zero = refl
total-places d n (suc k) = omega (arith, count-placeholder d (n + 1), total-places d (n + 1) k)

clean-lookup :
    (op : String) (table : Assoc String)
    → all (λ e. clean e.1) table ≡ true
    → clean (or_else (lookup op table) "=") ≡ true
unfolding lookup
clean-lookup op [] h = refl
clean-lookup op ((k, w) ∷ table) h = elim (Bool-cases (text_eq k op)) [
  | inl e ↦ rw e (ground arith)
  | inr e ↦ rw e (clean-lookup op table (ground arith))
]

clean-word_of : (d : Dialect) (op : String) → clean (word_of d op) ≡ true
unfolding sql_operator
clean-word_of d op = elim (Bool-cases (is_search op)) [
  | inl e ↦ rw e (like d)
  | inr e ↦ rw e (clean-lookup op sql_operators refl)
]
  where
    like : (d : Dialect) → clean (like_word d) ≡ true
    like postgres = refl
    like mysql = refl
    like snowflake = refl
    like oracle = refl

count-shape_text :
    (d : Dialect) (col op : String) (n : ℕ) (s : Shape)
    → clean col ≡ true
    → count_code (mark d) (shape_text d col op n s) ≡ arity s
unfolding shape_text
count-shape_text d col op n (listed zero) h = count-clean d "1 = 0" refl
count-shape_text d col op n (listed (suc k)) h =
    let inner : String = join_with ", " (places d n (suc k)) in
    omega (
      arith,
      count-after d col (concat " IN (" (concat inner ")")) h,
      count-after d " IN (" (concat inner ")") refl,
      count-before d inner ")" refl,
      count-join d ", " (places d n (suc k)) refl,
      total-places d n (suc k),
    )
count-shape_text d col op n void h =
    count-clean d
      (concat col (concat " IS " (concat (if text_eq op "$ne" then "NOT " else "") "NULL")))
      (clean-concat col (concat " IS " (concat (if text_eq op "$ne" then "NOT " else "") "NULL")) h
        (tail op))
  where
    tail :
        (op : String)
        → clean (concat " IS " (concat (if text_eq op "$ne" then "NOT " else "") "NULL")) ≡ true
    tail op = elim (Bool-cases (text_eq op "$ne")) [ inl e ↦ rw e refl | inr e ↦ rw e refl ]
count-shape_text d col op n single h =
    let place : String = placeholder d (n + 1) in
    omega (
      arith,
      count-after d col (concat " " (concat (word_of d op) (concat " " place))) h,
      count-after d " " (concat (word_of d op) (concat " " place)) refl,
      count-after d (word_of d op) (concat " " place) (clean-word_of d op),
      count-after d " " place refl,
      count-placeholder d (n + 1),
    )

total-column_texts :
    (d : Dialect) (col : String) (n : ℕ) (ss : List (String × Shape))
    → clean col ≡ true
    → total (mark d) (column_texts d col n ss) ≡ arities ss
total-column_texts d col n [] h = refl
total-column_texts d col n ((op, s) ∷ ss) h =
    omega (arith, count-shape_text d col op n s h, total-column_texts d col (n + arity s) ss h)

total-shape_texts :
    (d : Dialect) (n : ℕ) (f : Assoc (List (String × Shape)))
    → total (mark d) (shape_texts d n f) ≡ filter_arity f
total-shape_texts d n [] = refl
total-shape_texts d n ((key, ss) ∷ rest) = omega (
  arith,
  total-append (mark d) (column_texts d (quote_column d key) n ss)
      (shape_texts d (n + arities ss) rest),
  total-column_texts d (quote_column d key) n ss (clean-quote_column d key),
  total-shape_texts d (n + arities ss) rest,
)

count-where_text :
    (d : Dialect) (f : Assoc (List (String × Shape)))
    → count_code (mark d) (where_text d f) ≡ filter_arity f
count-where_text d [] = refl
count-where_text d (s ∷ rest) =
    let texts : List String = shape_texts d 0 (s ∷ rest) in
    omega (
      arith,
      count-after d " WHERE " (join_with " AND " texts) refl,
      count-join d " AND " texts refl,
      total-shape_texts d 0 (s ∷ rest),
    )

-- The condition of a statement holds as many placeholders as values are bound.
pub count-where_sql :
    (d : Dialect) (f : UserFilter)
    → count_code (mark d) (where_sql d f).0 ≡ length (where_sql d f).1
count-where_sql d f =
    let (text, count) = where_sql-Shaped d f in
    let same : count_code (mark d) (where_sql d f).0
        ≡ count_code (mark d) (where_text d (filter_shape f)) =
      ap (count_code (mark d)) text in
    omega (arith, count-where_text d (filter_shape f))
