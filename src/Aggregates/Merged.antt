-- ===== src/Aggregates/Merged.antt =====
-- What `mergePartials` leaves under the names that are added up. (aggregate.ts)
use zero_datafabric.Common.{
  ◌≡◌, refl, sym, ap, ◌∙◌, ◌⊎◌, inl, inr, Bool-cases, String, true, false, Option, List, [], ◌∷◌,
  arith, if◌then◌else◌, ℤ, z_min, z_add, zero-z_add, Value, num, Row, get, insert, get-insert,
  text_eq, text_eq_iff, has_prefix, All,
}
use zero_datafabric.Aggregates.{
  AggregateFunc, count_func, sum_func, min_func, max_func, avg_func, count_distinct, other_func,
  AggregateSpec, AggregatePlan, sum_alias, count_alias, numeric, z_max, is_undefined,
}
use zero_datafabric.Aggregates.Groups.{Key, acc_at}
use zero_datafabric.Aggregates.Merging.{
  group_value, key_of, start_acc, new_acc, add_to, bound_by, fold_in, fold_all, merged_groups,
}
use zero_datafabric.Aggregates.Totals.{writes, adds, Free, total, HoldsAs, gather-total}

sum_alias-count_alias : (s t : String) → text_eq (sum_alias s) (count_alias t) ≡ false
unfolding has_prefix
sum_alias-count_alias s t = elim (Bool-cases (text_eq (sum_alias s) (count_alias t))) [
  | inl e ↦
      let same : sum_alias s ≡ count_alias t = (text_eq_iff (sum_alias s) (count_alias t)).0 e in
      let wrong : true ≡ false = ap (has_prefix "__s") same in cc
  | inr e ↦ e
]

-- One aggregate writes to the name, and it adds.
abbrev pub Sole : String → List AggregateSpec → Type 0
Sole name [] = ⊥
Sole name (a ∷ rest) =
    ((adds a name ≡ true) × Free name rest) ⊎ ((writes a name ≡ false) × Sole name rest)

module _ (parse_float : String → Option ℤ) (name : String) where
  get-add_to :
      (k : String) (row acc : Row)
      → get name (add_to parse_float k row acc) ≡ (
          if text_eq k name
          then num (z_add (numeric parse_float (get k acc)) (numeric parse_float (get k row)))
          else get name acc)
  unfolding add_to
  get-add_to k row acc =
      get-insert name k
        (num (z_add (numeric parse_float (get k acc)) (numeric parse_float (get k row)))) acc

  added : (row acc : Row) → Value
  added row acc =
      num (z_add (numeric parse_float (get name acc)) (numeric parse_float (get name row)))

  add_to_self :
      (k : String) (row acc : Row)
      → text_eq k name ≡ true
      → get name (add_to parse_float k row acc) ≡ added row acc
  unfolding added
  add_to_self k row acc e =
      let same : k ≡ name = (text_eq_iff k name).0 e in
      get-add_to k row acc
      ∙ rw e (
          ap (λ x. num (z_add (numeric parse_float (get x acc)) (numeric parse_float (get x row))))
            same)

  add_to-other :
      (k : String) (row acc : Row)
      → text_eq k name ≡ false
      → get name (add_to parse_float k row acc) ≡ get name acc
  add_to-other k row acc e = get-add_to k row acc ∙ rw e refl

  bound_by-other :
      (pick : ℤ → ℤ → ℤ) (k : String) (row acc : Row)
      → text_eq k name ≡ false
      → get name (bound_by parse_float pick k row acc) ≡ get name acc
  unfolding bound_by
  bound_by-other pick k row acc e =
      get-insert name k
        (if is_undefined (get k acc)
          then get k row
          else num (pick (numeric parse_float (get k acc)) (numeric parse_float (get k row))))
        acc
      ∙ rw e refl

  fold_in-other :
      (f : AggregateFunc) (c : Option String) (s : String) (row acc : Row)
      → writes (record { func = f; column = c; alias = s }) name ≡ false
      → get name (fold_in parse_float (record { func = f; column = c; alias = s }) row acc)
        ≡ get name acc
  unfolding fold_in
  fold_in-other avg_func c s row acc h =
      let e : text_eq (sum_alias s) name ≡ false = ground arith in
      let f : text_eq (count_alias s) name ≡ false = ground arith in
      add_to-other (count_alias s) row (add_to parse_float (sum_alias s) row acc) f
      ∙ add_to-other (sum_alias s) row acc e
  fold_in-other count_func c s row acc h = add_to-other s row acc h
  fold_in-other sum_func c s row acc h = add_to-other s row acc h
  fold_in-other count_distinct c s row acc h = add_to-other s row acc h
  fold_in-other min_func c s row acc h = bound_by-other z_min s row acc h
  fold_in-other max_func c s row acc h = bound_by-other z_max s row acc h
  fold_in-other other_func c s row acc h = refl

  fold_in-adds :
      (f : AggregateFunc) (c : Option String) (s : String) (row acc : Row)
      → adds (record { func = f; column = c; alias = s }) name ≡ true
      → get name (fold_in parse_float (record { func = f; column = c; alias = s }) row acc)
        ≡ added row acc
  unfolding fold_in
  fold_in-adds avg_func c s row acc h = elim (Bool-cases (text_eq (count_alias s) name)) [
    | inl e ↦
        let at_count : count_alias s ≡ name = (text_eq_iff (count_alias s) name).0 e in
        let apart : text_eq (sum_alias s) name ≡ false =
          ap (text_eq (sum_alias s)) (sym at_count) ∙ sum_alias-count_alias s s in
        add_to_self (count_alias s) row (add_to parse_float (sum_alias s) row acc) e
        ∙ unfold added in
          ap (λ v. num (z_add (numeric parse_float v) (numeric parse_float (get name row))))
            (add_to-other (sum_alias s) row acc apart)
    | inr e ↦
        let at_sum : text_eq (sum_alias s) name ≡ true = ground arith in
        add_to-other (count_alias s) row (add_to parse_float (sum_alias s) row acc) e
        ∙ add_to_self (sum_alias s) row acc at_sum
  ]
  fold_in-adds count_func c s row acc h = add_to_self s row acc h
  fold_in-adds sum_func c s row acc h = add_to_self s row acc h
  fold_in-adds count_distinct c s row acc h = add_to_self s row acc h
  fold_in-adds min_func c s row acc h = cc
  fold_in-adds max_func c s row acc h = cc
  fold_in-adds other_func c s row acc h = cc

  folded_other :
      (specs : List AggregateSpec) (row acc : Row)
      → Free name specs
      → get name (fold_all parse_float specs row acc) ≡ get name acc
  unfolding fold_all
  folded_other [] row acc h = refl
  folded_other (a ∷ rest) row acc (h, hs) =
      folded_other rest row (fold_in parse_float a row acc) hs
      ∙ fold_in-other a.func a.column a.alias row acc h

  fold_all-adds :
      (specs : List AggregateSpec) (row acc : Row)
      → Sole name specs
      → get name (fold_all parse_float specs row acc) ≡ added row acc
  unfolding fold_all
  fold_all-adds [] row acc h = absurd h
  fold_all-adds (a ∷ rest) row acc (inl (h, hs)) =
      folded_other rest row (fold_in parse_float a row acc) hs
      ∙ fold_in-adds a.func a.column a.alias row acc h
  fold_all-adds (a ∷ rest) row acc (inr (h, hs)) =
      fold_all-adds rest row (fold_in parse_float a row acc) hs
      ∙ unfold added in
        ap (λ v. num (z_add (numeric parse_float v) (numeric parse_float (get name row))))
          (fold_in-other a.func a.column a.alias row acc h)

  -- No grouping column has the name.
  abbrev pub NoGroup : List String → Type 0
  NoGroup cols = All (λ c. text_eq c name ≡ false) cols

  start_acc-other :
      (cols : List String) (row acc : Row)
      → NoGroup cols
      → get name (start_acc parse_float cols row acc) ≡ get name acc
  start_acc-other [] row acc h = refl
  start_acc-other (c ∷ cols) row acc (h, hs) =
      start_acc-other cols row (insert c (group_value parse_float row c) acc) hs
      ∙ get-insert name c (group_value parse_float row c) acc
      ∙ rw h refl

  -- Under a name that one aggregate adds to, and that is no grouping column, the group of a key
  -- holds the total of what the partial rows of that key have there.
  pub merged_total :
      (plan : AggregatePlan) (k : Key) (rows : List Row)
      → NoGroup plan.group_cols
      → Sole name plan.aggregates
      → HoldsAs
          (λ acc n. get name acc ≡ num n)
          (acc_at k (merged_groups parse_float plan rows))
          (total (key_of parse_float plan) (λ r. numeric parse_float (get name r)) k rows)
  unfolding numeric added get
  merged_total plan k rows free sole =
      gather-total (key_of parse_float plan) (new_acc parse_float plan)
        (fold_all parse_float plan.aggregates) (λ r. numeric parse_float (get name r))
        (λ acc n. get name acc ≡ num n)
        (λ r.
          fold_all-adds plan.aggregates r (new_acc parse_float plan r) sole
          ∙ ap (λ v. num (z_add (numeric parse_float v) (numeric parse_float (get name r))))
              (start_acc-other plan.group_cols r [] free)
          ∙ ap num (zero-z_add (numeric parse_float (get name r))))
        (λ r acc n h.
          fold_all-adds plan.aggregates r acc sole
          ∙ ap (λ v. num (z_add (numeric parse_float v) (numeric parse_float (get name r)))) h)
        k rows
