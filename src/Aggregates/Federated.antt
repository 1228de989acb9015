-- ===== src/Aggregates/Federated.antt =====
-- Aggregation by the sources and merge, against aggregation of all rows in one pass. (aggregate.ts)
use zero_datafabric.Common.{
  ◌≡◌, refl, sym, ap, subst, ◌∙◌, inl, inr, Bool-cases, String, true, false, ◌||◌, Option, none,
  some, List, [], ◌∷◌, ◌++◌, if◌then◌else◌, ℤ, pos, z_add, z_add_zero, num, Row, get, text_eq,
  text_eq_iff, All,
}
use zero_datafabric.Aggregates.{
  AggregateFunc, count_func, sum_func, avg_func, AggregateSpec, AggregatePlan, sum_alias,
  count_alias, numeric, Cell, average_of,
}
use zero_datafabric.Aggregates.Groups.{Key, same_key, acc_at}
use zero_datafabric.Aggregates.Merging.{key_of, new_acc, fold_all, merged_groups}
use zero_datafabric.Aggregates.Raw.{
  sum_key, count_key, RawGroup, number_in, add_in, raw_value, is_counted, raw_fold, raw_key,
  new_group, raw_step, raw_groups, raw_cell,
}
use zero_datafabric.Aggregates.Totals.{
  total, has_key, total-append, any-append, HoldsAs, is_there, gather-there,
}
use zero_datafabric.Aggregates.Merged.{Sole, NoGroup, merged_total}
use zero_datafabric.Aggregates.Counted.{
  Only, number_is, number_same, sum_key-count_key, get-add_self, get-add_other, kept_total,
  counted_total,
}

-- A source: the rows that it has, and its answer to the partial aggregates.
pub record Source : Type 0 where
  pub rows : List Row
  pub answer : List Row

abbrev pub all_rows : List Source → List Row
all_rows [] = []
all_rows (s ∷ ss) = s.rows ++ all_rows ss

abbrev pub all_answers : List Source → List Row
all_answers [] = []
all_answers (s ∷ ss) = s.answer ++ all_answers ss

abbrev pub cell_at : {A : Type 0} → (A → Cell) → Option A → Option Cell
cell_at f none = none
cell_at f (some a) = some (f a)

pub held :
    {A : Type 0} (Is : A → ℤ → Type 0) (o : Option A) (n : ℤ) (a : A)
    → HoldsAs Is o n
    → o ≡ some a
    → Is a n
held Is o n a h e = subst (λ x. HoldsAs Is x n) e h

pub same_cell :
    {A B : Type 0} (f : A → Cell) (g : B → Cell) (o : Option A) (o' : Option B)
    → is_there o ≡ is_there o'
    → ((a : A) (b : B) → o ≡ some a → o' ≡ some b → f a ≡ g b)
    → cell_at f o ≡ cell_at g o'
same_cell f g none none h k = refl
same_cell f g none (some b) h k = cc
same_cell f g (some a) none h k = cc
same_cell f g (some a) (some b) h k = ap some (k a b refl refl)

pub total-same :
    (key : Row → Key) (v w : Row → ℤ) (k : Key) (rs : List Row)
    → All (λ r. v r ≡ w r) rs
    → total key v k rs ≡ total key w k rs
total-same key v w k [] h = refl
total-same key v w k (r ∷ rs) (e, hs) = elim (Bool-cases (same_key (key r) k)) [
  | inl m ↦ rw (m, e) (ap (z_add (w r)) (total-same key v w k rs hs))
  | inr m ↦ rw m (total-same key v w k rs hs)
]

module _ (parse_float : String → Option ℤ) (plan : AggregatePlan) (k : Key) where
  abbrev pub sum_value : Option String → Row → ℤ
  sum_value c row = numeric parse_float (raw_value parse_float c row)

  abbrev pub count_value : Option String → Row → ℤ
  count_value c row = if is_counted parse_float c row then pos 1 else pos 0

  -- The source's rows of the key have in their answer, under a name, the total of their values.
  abbrev pub Sends : String → (Row → ℤ) → Source → Type 0
  Sends name value s =
      total (key_of parse_float plan) (λ r. numeric parse_float (get name r)) k s.answer
      ≡ total (raw_key parse_float plan) value k s.rows

  -- The source answers for the key where it has rows of it.
  abbrev pub SameKey : Source → Type 0
  SameKey s =
      has_key (key_of parse_float plan) k s.answer ≡ has_key (raw_key parse_float plan) k s.rows

  -- What the source sends for an aggregate: a sum, a count of the rows with a value, or for a mean
  -- both; and for a mean its rows have values.
  abbrev pub Answers : AggregateSpec → Source → Type 0
  Answers a s = elim (a.func) [
    | sum_func ↦ SameKey s × Sends a.alias (sum_value a.column) s
    | count_func ↦ SameKey s × Sends a.alias (count_value a.column) s
    | avg_func ↦
        SameKey s
        × Sends (sum_alias a.alias) (sum_value a.column) s
        × Sends (count_alias a.alias) (count_value a.column) s
        × All (λ r. is_counted parse_float a.column r ≡ true) s.rows
    | _ ↦ ⊥
  ]

  abbrev pub AloneAt : String → Type 0
  AloneAt name = NoGroup parse_float name plan.group_cols × Sole name plan.aggregates

  -- The names that the aggregate uses are used by no other of the plan and by no grouping column.
  abbrev pub Apart : AggregateSpec → Type 0
  Apart a = elim (a.func) [
    | avg_func ↦
        AloneAt (sum_alias a.alias)
        × AloneAt (count_alias a.alias)
        × Only (λ b. b ≡ a) (sum_key a.alias) plan.aggregates
        × Only (λ b. b ≡ a) (count_key a.alias) plan.aggregates
    | _ ↦ AloneAt a.alias × Only (λ b. b ≡ a) a.alias plan.aggregates
  ]

  sent_total :
      (name : String) (value : Row → ℤ) (ss : List Source)
      → All (Sends name value) ss
      → total (key_of parse_float plan) (λ r. numeric parse_float (get name r)) k (all_answers ss)
        ≡ total (raw_key parse_float plan) value k (all_rows ss)
  sent_total name value [] h = refl
  sent_total name value (s ∷ ss) (h, hs) =
      total-append (key_of parse_float plan) (λ r. numeric parse_float (get name r)) k s.answer
        (all_answers ss)
      ∙ ap
          (λ n. z_add n (
            total (key_of parse_float plan) (λ r. numeric parse_float (get name r)) k
              (all_answers ss)))
          h
      ∙ ap (z_add (total (raw_key parse_float plan) value k s.rows)) (sent_total name value ss hs)
      ∙ sym (total-append (raw_key parse_float plan) value k s.rows (all_rows ss))

  same_keys :
      (ss : List Source)
      → All SameKey ss
      → has_key (key_of parse_float plan) k (all_answers ss)
        ≡ has_key (raw_key parse_float plan) k (all_rows ss)
  same_keys [] h = refl
  same_keys (s ∷ ss) (h, hs) =
      any-append (λ r. same_key (key_of parse_float plan r) k) s.answer (all_answers ss)
      ∙ ap (λ b. b || has_key (key_of parse_float plan) k (all_answers ss)) h
      ∙ ap (λ b. has_key (raw_key parse_float plan) k s.rows || b) (same_keys ss hs)
      ∙ sym (any-append (λ r. same_key (raw_key parse_float plan r) k) s.rows (all_rows ss))

  pub there :
      (ss : List Source)
      → All SameKey ss
      → is_there (acc_at k (merged_groups parse_float plan (all_answers ss)))
        ≡ is_there (acc_at k (raw_groups parse_float plan (all_rows ss)))
  there ss h =
      gather-there (key_of parse_float plan) (new_acc parse_float plan)
        (fold_all parse_float plan.aggregates) k (all_answers ss)
      ∙ same_keys ss h
      ∙ sym (
          gather-there (raw_key parse_float plan) (new_group parse_float plan)
            (raw_step parse_float plan) k (all_rows ss))

  -- The groups of the key, of either aggregation.
  abbrev pub merged_at : List Source → Option Row
  merged_at ss = acc_at k (merged_groups parse_float plan (all_answers ss))

  abbrev pub raw_at : List Row → Option RawGroup
  raw_at rows = acc_at k (raw_groups parse_float plan rows)

  abbrev pub spec_of : AggregateFunc → Option String → String → AggregateSpec
  spec_of f c s = record { func = f; column = c; alias = s }

  -- What the merge has under a name, from what the sources send.
  pub merged_is :
      (name : String) (value : Row → ℤ) (ss : List Source) (acc : Row)
      → AloneAt name
      → All (Sends name value) ss
      → merged_at ss ≡ some acc
      → get name acc ≡ num (total (raw_key parse_float plan) value k (all_rows ss))
  merged_is name value ss acc (free, sole) sent e =
      held (λ x m. get name x ≡ num m) (merged_at ss)
        (total (raw_key parse_float plan) value k (all_rows ss)) acc
        (subst (HoldsAs (λ x m. get name x ≡ num m) (merged_at ss)) (sent_total name value ss sent)
          (merged_total parse_float name plan k (all_answers ss) free sole))
        e

  -- What one pass has for a sum, a count, and the two numbers of a mean.
  pub raw_sum_is :
      (c : Option String) (s : String) (rows : List Row) (g : RawGroup)
      → Only (λ b. b ≡ spec_of sum_func c s) s plan.aggregates
      → raw_at rows ≡ some g
      → get s g.state ≡ num (total (raw_key parse_float plan) (sum_value c) k rows)
  unfolding raw_fold
  raw_sum_is c s rows g only e =
      held (λ x m. get s x.state ≡ num m) (raw_at rows)
        (total (raw_key parse_float plan) (sum_value c) k rows) g
        (kept_total parse_float s (spec_of sum_func c s) (sum_value c)
          (λ row st. get-add_self parse_float s (sum_value c row) st) plan k rows only)
        e

  pub raw_count_is :
      (c : Option String) (s : String) (rows : List Row) (g : RawGroup)
      → Only (λ b. b ≡ spec_of count_func c s) s plan.aggregates
      → raw_at rows ≡ some g
      → number_in s g.state ≡ total (raw_key parse_float plan) (count_value c) k rows
  unfolding raw_fold
  raw_count_is c s rows g only e =
      held (λ x m. number_in s x.state ≡ m) (raw_at rows)
        (total (raw_key parse_float plan) (count_value c) k rows) g
        (counted_total parse_float s (spec_of count_func c s) (count_value c)
          (λ row st. elim (Bool-cases (is_counted parse_float c row)) [
            | inl yes_value ↦ rw yes_value (
                number_is s (add_in s (pos 1) st) (z_add (number_in s st) (pos 1))
                  (get-add_self parse_float s (pos 1) st))
            | inr no_value ↦ rw no_value (sym (z_add_zero (number_in s st)))
          ])
          plan k rows only)
        e

  pub raw_mean_is :
      (c : Option String) (s : String) (rows : List Row) (g : RawGroup)
      → Only (λ b. b ≡ spec_of avg_func c s) (sum_key s) plan.aggregates
      → Only (λ b. b ≡ spec_of avg_func c s) (count_key s) plan.aggregates
      → raw_at rows ≡ some g
      → raw_cell parse_float (spec_of avg_func c s) g
        ≡ average_of
            (total (raw_key parse_float plan) (sum_value c) k rows)
            (total (raw_key parse_float plan) (λ r. pos 1) k rows)
  unfolding raw_fold raw_cell
  raw_mean_is c s rows g sums counts e =
      let n = total (raw_key parse_float plan) (sum_value c) k rows in
      let m = total (raw_key parse_float plan) (λ r. pos 1) k rows in
      let sum : get (sum_key s) g.state ≡ num n =
        held (λ x m. get (sum_key s) x.state ≡ num m) (raw_at rows) n g
          (kept_total parse_float (sum_key s) (spec_of avg_func c s) (sum_value c)
            (λ row st.
              get-add_other parse_float (sum_key s) (count_key s) (pos 1)
                (add_in (sum_key s) (sum_value c row) st)
                (apart (sum_key s) (count_key s) (sum_key-count_key s))
              ∙ get-add_self parse_float (sum_key s) (sum_value c row) st)
            plan k rows sums)
          e in
      let count : get (count_key s) g.state ≡ num m =
        held (λ x m. get (count_key s) x.state ≡ num m) (raw_at rows) m g
          (kept_total parse_float (count_key s) (spec_of avg_func c s) (λ r. pos 1)
            (λ row st.
              get-add_self parse_float (count_key s) (pos 1)
                (add_in (sum_key s) (sum_value c row) st)
              ∙ ap (λ x. num (z_add x (pos 1)))
                  (number_same (count_key s) (add_in (sum_key s) (sum_value c row) st) st (
                    get-add_other parse_float (count_key s) (sum_key s) (sum_value c row) st
                      (sum_key-count_key s))))
            plan k rows counts)
          e in
      ap (λ x. average_of x (number_in (count_key s) g.state)) (number_is (sum_key s) g.state n sum)
      ∙ ap (average_of n) (number_is (count_key s) g.state m count)
    where
      apart : (a b : String) → text_eq a b ≡ false → text_eq b a ≡ false
      apart a b h = elim (Bool-cases (text_eq b a)) [
        | inl e ↦
            let both : text_eq a b ≡ true = (text_eq_iff a b).1 (sym ((text_eq_iff b a).0 e)) in cc
        | inr e ↦ e
      ]
