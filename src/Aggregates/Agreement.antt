-- ===== src/Aggregates/Agreement.antt =====
-- Federated and local aggregation agree. (aggregate.ts)
use zero_datafabric.Common.{
  ◌≡◌, refl, sym, ap, ◌∙◌, inl, inr, Option-cases, String, true, false, Option, none, some, List,
  [], ◌∷◌, ◌++◌, if◌then◌else◌, ℤ, pos, Row, num, All,
}
use zero_datafabric.Aggregates.{
  AggregateFunc, count_func, sum_func, min_func, max_func, avg_func, count_distinct, other_func,
  AggregateSpec, AggregatePlan, sum_alias, count_alias, plain, average_of, Cell,
}
use zero_datafabric.Aggregates.Groups.{Key, gather, acc_at}
use zero_datafabric.Aggregates.Merging.{final_cell}
use zero_datafabric.Aggregates.Raw.{
  RawGroup, sum_key, count_key, is_counted, raw_cell, raw_key, new_group, raw_step,
}
use zero_datafabric.Aggregates.Totals.{total, has_key, is_there, gather-there}
use zero_datafabric.Aggregates.Counted.{Only}
use zero_datafabric.Aggregates.Federated.{
  Source, all_rows, cell_at, same_cell, total-same, sum_value, count_value, Answers, Apart, there,
  merged_at, raw_at, spec_of, merged_is, raw_sum_is, raw_count_is, raw_mean_is,
}

All-map :
    {P Q : Source → Type 0} (ss : List Source) → ((s : Source) → P s → Q s) → All P ss → All Q ss
All-map [] f h = tt
All-map (s ∷ ss) f (h, hs) = (f s h, All-map ss f hs)

All-rows : (P : Row → Type 0) (rs ss : List Row) → All P rs → All P ss → All P (rs ++ ss)
All-rows P [] ss h k = k
All-rows P (r ∷ rs) ss (h, hs) k = (h, All-rows P rs ss hs k)

All-counted :
    (P : Row → Type 0) (ss : List Source) → All (λ s. All P s.rows) ss → All P (all_rows ss)
All-counted P [] h = tt
All-counted P (s ∷ ss) (h, hs) = All-rows P s.rows (all_rows ss) h (All-counted P ss hs)

ones :
    (parse_float : String → Option ℤ) (c : Option String) (rs : List Row)
    → All (λ r. is_counted parse_float c r ≡ true) rs
    → All (λ r. (if is_counted parse_float c r then pos 1 else pos 0) ≡ pos 1) rs
ones parse_float c [] h = tt
ones parse_float c (r ∷ rs) (h, hs) = (rw h refl, ones parse_float c rs hs)

module _ (parse_float : String → Option ℤ) (plan : AggregatePlan) (k : Key) where
  no_sources :
      (f : Row → Cell) (g : RawGroup → Cell) (ss : List Source)
      → All (λ s. ⊥) ss
      → cell_at f (merged_at parse_float plan k ss)
        ≡ cell_at g (raw_at parse_float plan k (all_rows ss))
  unfolding gather acc_at
  no_sources f g [] h = refl
  no_sources f g (s ∷ ss) (h, hs) = absurd h

module _ (parse_float : String → Option ℤ) (plan : AggregatePlan) (k : Key) (ss : List Source) where
  agree :
      (f : AggregateFunc) (c : Option String) (s : String)
      → Apart parse_float plan k (spec_of parse_float plan k f c s)
      → All (Answers parse_float plan k (spec_of parse_float plan k f c s)) ss
      → cell_at
          (final_cell parse_float (spec_of parse_float plan k f c s))
          (merged_at parse_float plan k ss)
        ≡ cell_at
            (raw_cell parse_float (spec_of parse_float plan k f c s))
            (raw_at parse_float plan k (all_rows ss))
  unfolding final_cell raw_cell
  agree sum_func c s (alone, only) h =
      same_cell (final_cell parse_float (spec_of parse_float plan k sum_func c s))
        (raw_cell parse_float (spec_of parse_float plan k sum_func c s))
        (merged_at parse_float plan k ss) (raw_at parse_float plan k (all_rows ss))
        (there parse_float plan k ss (All-map ss (λ x p. p.0) h))
        (λ acc g e e'.
          let l =
            merged_is parse_float plan k s (sum_value parse_float plan k c) ss acc alone
              (All-map ss (λ x p. p.1) h) e in
          let r = raw_sum_is parse_float plan k c s (all_rows ss) g only e' in rw (l, r) refl)
  agree count_func c s (alone, only) h =
      same_cell (final_cell parse_float (spec_of parse_float plan k count_func c s))
        (raw_cell parse_float (spec_of parse_float plan k count_func c s))
        (merged_at parse_float plan k ss) (raw_at parse_float plan k (all_rows ss))
        (there parse_float plan k ss (All-map ss (λ x p. p.0) h))
        (λ acc g e e'.
          let l =
            merged_is parse_float plan k s (count_value parse_float plan k c) ss acc alone
              (All-map ss (λ x p. p.1) h) e in
          let r = raw_count_is parse_float plan k c s (all_rows ss) g only e' in
          ap plain l ∙ sym (ap (λ n. plain (num n)) r))
  agree avg_func c s (at_sum, at_count, sums, counts) h =
      same_cell (final_cell parse_float (spec_of parse_float plan k avg_func c s))
        (raw_cell parse_float (spec_of parse_float plan k avg_func c s))
        (merged_at parse_float plan k ss) (raw_at parse_float plan k (all_rows ss))
        (there parse_float plan k ss (All-map ss (λ x p. p.0) h))
        (λ acc g e e'.
          let n =
            total (raw_key parse_float plan) (sum_value parse_float plan k c) k (all_rows ss) in
          let l =
            merged_is parse_float plan k (sum_alias s) (sum_value parse_float plan k c) ss acc
              at_sum (All-map ss (λ x p. p.1) h) e in
          let m =
            merged_is parse_float plan k (count_alias s) (count_value parse_float plan k c) ss acc
              at_count (All-map ss (λ x p. p.2) h) e in
          let r = raw_mean_is parse_float plan k c s (all_rows ss) g sums counts e' in
          let same =
            total-same (raw_key parse_float plan) (count_value parse_float plan k c) (λ r. pos 1) k
              (all_rows ss)
              (ones parse_float c (all_rows ss) (
                All-counted (λ r. is_counted parse_float c r ≡ true) ss
                  (All-map ss (λ x p. p.3) h))) in
          rw (l, m) (ap (average_of n) same) ∙ sym r)
  agree min_func c s a h =
      no_sources parse_float plan k
        (final_cell parse_float (spec_of parse_float plan k min_func c s))
        (raw_cell parse_float (spec_of parse_float plan k min_func c s)) ss h
  agree max_func c s a h =
      no_sources parse_float plan k
        (final_cell parse_float (spec_of parse_float plan k max_func c s))
        (raw_cell parse_float (spec_of parse_float plan k max_func c s)) ss h
  agree count_distinct c s a h =
      no_sources parse_float plan k
        (final_cell parse_float (spec_of parse_float plan k count_distinct c s))
        (raw_cell parse_float (spec_of parse_float plan k count_distinct c s)) ss h
  agree other_func c s a h =
      no_sources parse_float plan k
        (final_cell parse_float (spec_of parse_float plan k other_func c s))
        (raw_cell parse_float (spec_of parse_float plan k other_func c s)) ss h

-- Sums, counts and means over several sources: where each source sends its own sums and counts for
-- the key, for a mean has a value in each of its rows, and the names used are apart, the merge of
-- the sources' answers has the cell that one pass over all of their rows has.
pub merge-aggregate_raw :
    (parse_float : String → Option ℤ) (plan : AggregatePlan) (k : Key) (ss : List Source)
    (a : AggregateSpec)
    → Apart parse_float plan k a
    → All (Answers parse_float plan k a) ss
    → cell_at (final_cell parse_float a) (merged_at parse_float plan k ss)
      ≡ cell_at (raw_cell parse_float a) (raw_at parse_float plan k (all_rows ss))
merge-aggregate_raw parse_float plan k ss a apart h =
    agree parse_float plan k ss a.func a.column a.alias apart h

-- In one pass, the mean of a group divides the sum of its values by the number of all of its rows,
-- those without a value included. The names of the mean are used by no other aggregate of the plan.
pub aggregate_raw-averages :
    (parse_float : String → Option ℤ) (plan : AggregatePlan) (k : Key) (c : Option String)
    (s : String) (rows : List Row)
    → Only (λ b. b ≡ spec_of parse_float plan k avg_func c s) (sum_key s) plan.aggregates
    → Only (λ b. b ≡ spec_of parse_float plan k avg_func c s) (count_key s) plan.aggregates
    → cell_at
        (raw_cell parse_float (spec_of parse_float plan k avg_func c s))
        (raw_at parse_float plan k rows)
      ≡ (if has_key (raw_key parse_float plan) k rows
          then some (
              average_of
                (total (raw_key parse_float plan) (sum_value parse_float plan k c) k rows)
                (total (raw_key parse_float plan) (λ r. pos 1) k rows))
          else none)
aggregate_raw-averages parse_float plan k c s rows sums counts =
    elim (Option-cases (raw_at parse_float plan k rows)) [
      | inl e ↦
          let none_there : has_key (raw_key parse_float plan) k rows ≡ false =
            sym group_there ∙ ap is_there e in
          rw (e, none_there) refl
      | inr (g, e) ↦
          let one_there : has_key (raw_key parse_float plan) k rows ≡ true =
            sym group_there ∙ ap is_there e in
          rw (e, one_there) (ap some (raw_mean_is parse_float plan k c s rows g sums counts e))
    ]
  where
    group_there :
        is_there (raw_at parse_float plan k rows) ≡ has_key (raw_key parse_float plan) k rows
    group_there =
        gather-there (raw_key parse_float plan) (new_group parse_float plan)
          (raw_step parse_float plan) k rows
