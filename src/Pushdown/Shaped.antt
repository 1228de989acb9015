-- ===== src/Pushdown/Shaped.antt =====
-- The shape of a condition, and the text that it has. (pushdown.ts)
use zero_datafabric.Common.{
  ℕ, zero, suc, ◌+◌, ◌≡◌, refl, ap, ◌∙◌, inl, inr, Bool-cases, arith, String, ◌&&◌, List, [], ◌∷◌,
  ◌++◌, length, length-append, if◌then◌else◌, Value, one, text_eq, concat, Assoc, str,
}
use zero_datafabric.Policy.{UserCondition, bare, UserFilter}
use zero_datafabric.Pushdown.Names.{Dialect, join_with, quote_column}
use zero_datafabric.Pushdown.Conditions.{
  Params, placeholder, bind, bind_all, in_sql, compared, condition_sql, split_ops, sql_operator,
  is_many, is_null, list_items, is_search, null_test, like_word, show_condition,
}

-- What a condition keeps of its value: the length of its list, that it is null, or nothing.
pub data Shape : Type 0 where
  listed : ℕ → Shape
  void : Shape
  single : Shape

unfoldable pub shape_of : String → UserCondition → Shape
shape_of op v =
    if text_eq op "$in" && is_many v
    then listed (length (list_items v))
    else if is_search op
    then single
    else if is_null v && null_test op
    then void
    else single

abbrev pub column_shape : List (String × UserCondition) → List (String × Shape)
column_shape [] = []
column_shape ((op, v) ∷ rest) = (op, shape_of op v) ∷ column_shape rest

abbrev pub filter_shape : UserFilter → Assoc (List (String × Shape))
filter_shape [] = []
filter_shape ((key, v) ∷ rest) = (key, column_shape (split_ops v)) ∷ filter_shape rest

-- The number of values that a shape binds.
abbrev pub arity : Shape → ℕ
arity (listed n) = n
arity void = 0
arity single = 1

abbrev pub arities : List (String × Shape) → ℕ
arities [] = 0
arities ((op, s) ∷ rest) = arity s + arities rest

abbrev pub filter_arity : Assoc (List (String × Shape)) → ℕ
filter_arity [] = 0
filter_arity ((key, ss) ∷ rest) = arities ss + filter_arity rest

-- The placeholders of `count` values after `n` others.
unfoldable pub places : Dialect → ℕ → ℕ → List String
places d n zero = []
places d n (suc count) = placeholder d (n + 1) ∷ places d (n + 1) count

abbrev pub word_of : Dialect → String → String
word_of d op = if is_search op then like_word d else sql_operator op

unfoldable pub shape_text : Dialect → String → String → ℕ → Shape → String
unfolding places
shape_text d col op n (listed zero) = "1 = 0"
shape_text d col op n (listed (suc k)) =
    concat col (concat " IN (" (concat (join_with ", " (places d n (suc k))) ")"))
shape_text d col op n void =
    concat col (concat " IS " (concat (if text_eq op "$ne" then "NOT " else "") "NULL"))
shape_text d col op n single =
    concat col (concat " " (concat (word_of d op) (concat " " (placeholder d (n + 1)))))

abbrev pub column_texts : Dialect → String → ℕ → List (String × Shape) → List String
column_texts d col n [] = []
column_texts d col n ((op, s) ∷ rest) =
    shape_text d col op n s ∷ column_texts d col (n + arity s) rest

abbrev pub shape_texts : Dialect → ℕ → Assoc (List (String × Shape)) → List String
shape_texts d n [] = []
shape_texts d n ((key, ss) ∷ rest) =
    column_texts d (quote_column d key) n ss ++ shape_texts d (n + arities ss) rest

-- A text and its bound values, as those of a shape.
abbrev pub Shaped : {A : Type 0} → A × Params → A → Params → ℕ → Type 0
Shaped r text params count = (r.0 ≡ text) × (length r.1 ≡ length params + count)

bind_all-Shaped :
    (d : Dialect) (vs : List Value) (params : Params)
    → Shaped (bind_all d vs params) (places d (length params) (length vs)) params (length vs)
unfolding bind_all bind places
bind_all-Shaped d [] params = (refl, omega arith)
bind_all-Shaped d (v ∷ vs) params =
    let one_more : length (params ++ bare (one v) ∷ []) ≡ length params + 1 =
      length-append params (bare (one v) ∷ []) in
    let (texts, count) = bind_all-Shaped d vs (params ++ bare (one v) ∷ []) in
    (
      ap (λ ts. placeholder d (length params + 1) ∷ ts)
          (texts ∙ ap (λ n. places d n (length vs)) one_more),
      omega arith,
    )

in_sql-Shaped :
    (d : Dialect) (col op : String) (vs : List Value) (params : Params)
    → Shaped
        (in_sql d col vs params)
        (shape_text d col op (length params) (listed (length vs)))
        params
        (length vs)
unfolding in_sql shape_text
in_sql-Shaped d col op [] params = (refl, omega arith)
in_sql-Shaped d col op (v ∷ vs) params =
    let (texts, count) = bind_all-Shaped d (v ∷ vs) params in
    (ap (λ ts. concat col (concat " IN (" (concat (join_with ", " ts) ")"))) texts, count)

compared-Shaped :
    (d : Dialect) (col word word' : String) (v : UserCondition) (params : Params)
    → word ≡ word'
    → Shaped
        (compared d col word v params)
        (concat col (concat " " (concat word' (concat " " (placeholder d (length params + 1))))))
        params
        1
unfolding compared bind
compared-Shaped d col word word' v params e = (
  ap (λ w. concat col (concat " " (concat w (concat " " (placeholder d (length params + 1)))))) e,
  length-append params (v ∷ []),
)

pub condition_sql-Shaped :
    (d : Dialect) (col op : String) (v : UserCondition) (params : Params)
    → Shaped
        (condition_sql d col op v params)
        (shape_text d col op (length params) (shape_of op v))
        params
        (arity (shape_of op v))
unfolding condition_sql shape_of shape_text
condition_sql-Shaped d col op v params = elim (Bool-cases (text_eq op "$in" && is_many v)) [
  | inl e ↦ rw e (in_sql-Shaped d col op (list_items v) params)
  | inr e ↦ elim (Bool-cases (is_search op)) [
    | inl s ↦
        rw (e, s)
          (compared-Shaped d col (like_word d) (word_of d op)
            (bare (one (str (concat "%" (concat (show_condition v) "%"))))) params (rw s refl))
    | inr s ↦ elim (Bool-cases (is_null v && null_test op)) [
      | inl n ↦ rw (e, s, n) (refl, omega arith)
      | inr n ↦
          rw (e, s, n) (compared-Shaped d col (sql_operator op) (word_of d op) v params (rw s refl))
    ]
  ]
]
