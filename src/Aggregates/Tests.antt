-- ===== src/Aggregates/Tests.antt =====
-- Runs of both aggregations. (aggregate.ts)
use zero_datafabric.Common.{
  ◌≡◌, refl, String, Option, none, some, [], ◌∷◌, ℤ, pos, null, num, str, Row, get, insert, z_add,
  inl, if◌then◌else◌,
}
use zero_datafabric.NetGuard.Addresses.{split}
use zero_datafabric.Aggregates.{
  AggregatePlan, AggregateSpec, average_of, avg_func, max_func, plain, mean, numeric, base,
  read_col,
}
use zero_datafabric.Aggregates.Groups.{gather, into_groups}
use zero_datafabric.Aggregates.Merging.{fold_all, fold_in, merge_partials}
use zero_datafabric.Aggregates.Raw.{aggregate_raw, raw_cell, raw_key}
use zero_datafabric.Aggregates.Merging.{final_cell}
use zero_datafabric.Aggregates.Totals.{total, has_key}
use zero_datafabric.Aggregates.Groups.{Key}
use zero_datafabric.Aggregates.Federated.{Source, all_rows, cell_at, merged_at, raw_at, sum_value}
use zero_datafabric.Aggregates.Agreement.{merge-aggregate_raw, aggregate_raw-averages}

-- All of the aggregation, for tests.
aggregating : Unit {0}
unfolding merge_partials gather into_groups fold_all fold_in numeric get insert z_add base split
    aggregate_raw read_col
aggregating = tt

abbrev no_number : String → Option ℤ
no_number s = none

abbrev by_region : AggregatePlan
by_region = record {
  group_cols = "region" ∷ [];
  aggregates =
      record { func = avg_func; column = some "qty"; alias = "mean" }
      ∷ record { func = max_func; column = some "qty"; alias = "most" }
      ∷ [];
}

two_sources :
    merge_partials no_number by_region (
      (("region", str "EU")
        ∷ ("__sum__mean", num (pos 6))
        ∷ ("__cnt__mean", num (pos 2))
        ∷ ("most", num (pos 4))
        ∷ [])
      ∷ (("region", str "EU")
          ∷ ("__sum__mean", num (pos 9))
          ∷ ("__cnt__mean", num (pos 1))
          ∷ ("most", num (pos 9))
          ∷ [])
      ∷ [])
    ≡ (("region", plain (str "EU"))
        ∷ ("mean", mean (pos 15) (pos 3))
        ∷ ("most", plain (num (pos 9)))
        ∷ [])
      ∷ []
unfolding aggregating
two_sources = refl

abbrev sale : ℤ → Row
sale n = ("o.region", str "EU") ∷ ("o.qty", num n) ∷ []

one_pass :
    aggregate_raw no_number by_region (sale (pos 2) ∷ sale (pos 4) ∷ sale (pos 9) ∷ [])
    ≡ (("region", plain (str "EU"))
        ∷ ("mean", mean (pos 15) (pos 3))
        ∷ ("most", plain (num (pos 9)))
        ∷ [])
      ∷ []
unfolding aggregating
one_pass = refl

-- A row without a value counts for the mean in one pass.
null_row :
    aggregate_raw no_number by_region
      (sale (pos 6) ∷ (("region", str "EU") ∷ ("qty", null) ∷ []) ∷ [])
    ≡ (("region", plain (str "EU"))
        ∷ ("mean", mean (pos 6) (pos 2))
        ∷ ("most", plain (num (pos 6)))
        ∷ [])
      ∷ []
unfolding aggregating
null_row = refl

abbrev mean_qty : AggregateSpec
mean_qty = record { func = avg_func; column = some "qty"; alias = "mean" }

abbrev europe : Key
europe = str "EU" ∷ []

abbrev partial_row : ℤ → ℤ → Row
partial_row sum count =
    ("region", str "EU") ∷ ("__sum__mean", num sum) ∷ ("__cnt__mean", num count) ∷ []

abbrev north : Source
north = record {
  rows = sale (pos 2) ∷ sale (pos 4) ∷ [];
  answer = partial_row (pos 6) (pos 2) ∷ [];
}

abbrev south : Source
south = record { rows = sale (pos 9) ∷ []; answer = partial_row (pos 9) (pos 1) ∷ [] }

merge-aggregate_raw_example :
    cell_at
      (final_cell no_number mean_qty)
      (merged_at no_number by_region europe (north ∷ south ∷ []))
    ≡ cell_at
        (raw_cell no_number mean_qty)
        (raw_at no_number by_region europe (all_rows (north ∷ south ∷ [])))
unfolding aggregating
merge-aggregate_raw_example =
    merge-aggregate_raw no_number by_region europe (north ∷ south ∷ []) mean_qty
      (
        ((refl, tt), inl (refl, (refl, tt))),
        ((refl, tt), inl (refl, (refl, tt))),
        inl (refl, (refl, tt)),
        inl (refl, (refl, tt)),
      )
      ((refl, refl, refl, (refl, (refl, tt))), ((refl, refl, refl, (refl, tt)), tt))

aggregate_raw-averages_example :
    cell_at (raw_cell no_number mean_qty) (raw_at no_number by_region europe (sale (pos 6) ∷ []))
    ≡ (if has_key (raw_key no_number by_region) europe (sale (pos 6) ∷ [])
        then some (
            average_of
              (total
                (raw_key no_number by_region)
                (sum_value no_number by_region europe (some "qty"))
                europe
                (sale (pos 6) ∷ []))
              (total (raw_key no_number by_region) (λ r. pos 1) europe (sale (pos 6) ∷ [])))
        else none)
aggregate_raw-averages_example =
    aggregate_raw-averages no_number by_region europe (some "qty") "mean" (sale (pos 6) ∷ [])
      (inl (refl, (refl, tt))) (inl (refl, (refl, tt)))
