-- ===== src/Copy/Ending.antt =====
-- How a paged copy ends, and how much it reads. (copy_util.ts)
use zero_datafabric.Common.{ℕ, suc, ◌+◌, ◌-◌, ◌≤◌, ◌<◌, ◌≡◌, ◌≢◌, String, arith, length}
use zero_datafabric.Copy.{
  Limits, Cursor, Surroundings, Outcome, finished, paused, memory_ceiling, batch_failed,
  save_failed, row_cap, out_of_fuel, Copied, paged_read,
}
use zero_datafabric.Copy.Rounds.{Rules, Stopped, by_pause, by_memory, by_batch, page, copy_from_ind}

module _ (key : String) (limits : Limits) (env : Surroundings) where
  abbrev Ends : ℕ → ℕ → ℕ → Cursor → Copied → Type 0
  Ends fuel i t c r = limits.max_rows - t < fuel → r.outcome ≢ out_of_fuel

  Stopped-ends : (o : Outcome) → Stopped o → o ≢ out_of_fuel
  Stopped-ends paused by_pause = λ e. cc
  Stopped-ends memory_ceiling by_memory = λ e. cc
  Stopped-ends batch_failed by_batch = λ e. cc
  Stopped-ends finished s = elim s [ ]
  Stopped-ends save_failed s = elim s [ ]
  Stopped-ends row_cap s = elim s [ ]
  Stopped-ends out_of_fuel s = elim s [ ]

  ends : Rules key limits env Ends
  ends = record {
    exhausted = λ i t c enough e. omega arith;
    stops = λ fuel i t c o s enough. Stopped-ends o s;
    nothing_left = λ fuel i t c read enough e. cc;
    not_saved = λ fuel i t c r rs read enough e. cc;
    last_page = λ fuel i t c r rs read short enough e. cc;
    at_cap = λ fuel i t c r rs read over enough e. cc;
    goes_on = λ fuel i t c r rs rest read under h enough. h (omega arith);
  }

  -- A copy always ends, whatever the source, the sink and the store do: the rounds that the row cap
  -- leaves are enough.
  pub paged_read-ends :
      (prior : ℕ) (start : Cursor) → (paged_read key limits env prior start).outcome ≢ out_of_fuel
  unfolding paged_read
  paged_read-ends prior start =
      copy_from_ind key limits env Ends ends (suc (limits.max_rows - prior)) 0 prior start
        (omega arith)

  -- A source that returns no more rows than it is asked for.
  abbrev pub HonoursLimit : Type 0
  HonoursLimit = (i : ℕ) (c : Cursor) → length (page key limits env i c) ≤ limits.batch_size

  abbrev Counted : ℕ → ℕ → ℕ → Cursor → Copied → Type 0
  Counted fuel i t c r =
      HonoursLimit
      → (r.total ≡ t + length r.saved)
        × (length r.saved ≤ (limits.max_rows - t) + limits.batch_size)
