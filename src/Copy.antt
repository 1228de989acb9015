-- ===== src/Copy.antt =====
-- backend/src/modules/sync/copy_util.ts: reading a table in pages, with a checkpoint after each.
-- What the source, the sink, the checkpoint store, the pause probe and the heap do in each round of
-- the loop is an argument, as a function of the round.
pub mod Rounds
pub mod Ending
pub mod Pages
pub mod Resume
mod Tests
use zero_datafabric.Common.{
  ℕ, zero, suc, ◌+◌, ◌-◌, String, Bool, true, false, Option, none, some, List, [], ◌∷◌, ◌++◌,
  if◌then◌else◌, ltb, leb, length, ℤ, pos, negsuc, Value, undefined, Row, get, is_present,
}

-- `CopyOpts`, without the checkpoint provider.
pub record CopyOpts : Type 0 where
  pub batch_size : Option ℤ
  pub max_rows : Option ℤ

-- `o?.x && o.x > 0 ? o.x : fallback`
unfoldable pub positive_or : Option ℤ → ℕ → ℕ
positive_or (some (pos (suc n))) fallback = suc n
positive_or _ fallback = fallback

pub record Limits : Type 0 where
  pub batch_size : ℕ
  pub max_rows : ℕ

-- `COPY_BATCH` and `HARD_MAX_ROWS` where the environment sets neither
abbrev pub default_limits : Limits
default_limits = record { batch_size = 1000; max_rows = 5000000 }

-- `resolveOpts`, from the two values that were read from the environment
unfoldable pub resolve_opts : Limits → CopyOpts → Limits
unfolding positive_or
resolve_opts env o = record {
  batch_size = positive_or o.batch_size env.batch_size;
  max_rows = positive_or o.max_rows env.max_rows;
}

-- The last key of keyset paging, or the next offset.
pub data Cursor : Type 0 where
  last_key : Value → Cursor
  offset : ℕ → Cursor

-- The canonical query of a page: ordered by the key, after a key where there is one; or an offset.
pub data PageQuery : Type 0 where
  by_key : String → Option Value → ℕ → PageQuery
  by_offset : ℕ → ℕ → PageQuery

abbrev pub after_key : Value → Option Value
after_key v = if is_present v then some v else none

-- The query of the next page; `key` is the column of keyset paging.
unfoldable pub page_query : String → ℕ → Cursor → PageQuery
page_query key batch_size (last_key v) = by_key key (after_key v) batch_size
page_query key batch_size (offset n) = by_offset n batch_size

abbrev pub last_of : {A : Type 0} → A → List A → A
last_of r [] = r
last_of r (x ∷ xs) = last_of x xs

-- The cursor after a page that is not empty.
unfoldable pub advance : String → Cursor → Row → List Row → Cursor
unfolding get
advance key (last_key v) r rs = last_key (get key (last_of r rs))
advance key (offset n) r rs = offset (n + length (r ∷ rs))

-- What happens in each round.
pub record Surroundings : Type 0 where
  pub should_stop : ℕ → Bool
  pub over_ceiling : ℕ → Bool
  pub query : ℕ → PageQuery → List Row
  pub batch_fails : ℕ → Bool
  pub save_fails : ℕ → Bool

-- How the copy ends; `row_cap` and the failures are thrown errors.
pub data Outcome : Type 0 where
  finished paused memory_ceiling batch_failed save_failed row_cap out_of_fuel : Outcome

-- The rows of the batches whose progress was saved, those of one that was written and not saved, and
-- the cursor and the total as last saved.
pub record Copied : Type 0 where
  pub outcome : Outcome
  pub total : ℕ
  pub cursor : Cursor
  pub saved : List Row
  pub unsaved : List Row

abbrev pub ended : Outcome → ℕ → Cursor → Copied
ended o total cursor = record {
  outcome = o;
  total = total;
  cursor = cursor;
  saved = [];
  unsaved = [];
}

abbrev pub and_saved : List Row → Copied → Copied
and_saved rows c = record {
  outcome = c.outcome;
  total = c.total;
  cursor = c.cursor;
  saved = rows ++ c.saved;
  unsaved = c.unsaved;
}

module _ (key : String) (limits : Limits) (env : Surroundings) where
  -- After `onProgress`: the last page, the hard cap, or another round.
  abbrev pub after_batch : List Row → ℕ → Cursor → Copied → Copied
  after_batch rows total cursor rest = and_saved rows (
      if ltb (length rows) limits.batch_size
      then ended finished total cursor
      else if leb limits.max_rows total
      then ended row_cap total cursor
      else rest)

  -- From `onBatch` on, for a page that is not empty.
  abbrev pub with_batch : ℕ → List Row → ℕ → Cursor → ℕ → Cursor → Copied → Copied
  with_batch i rows total cursor total' cursor' rest =
      if env.batch_fails i
      then ended batch_failed total cursor
      else if env.save_fails i
      then record {
        outcome = save_failed;
        total = total;
        cursor = cursor;
        saved = [];
        unsaved = rows;
      }
      else after_batch rows total' cursor' rest

  -- The loop of `pagedRead`, from round `i`.
  unfoldable pub copy_from : ℕ → ℕ → ℕ → Cursor → Copied
  unfolding page_query advance
  copy_from zero i total cursor = ended out_of_fuel total cursor
  copy_from (suc fuel) i total cursor =
      if env.should_stop i
      then ended paused total cursor
      else if env.over_ceiling i
      then ended memory_ceiling total cursor
      else elim (env.query i (page_query key limits.batch_size cursor)) [
        | [] ↦ ended finished total cursor
        | r ∷ rs ↦
            let total' = total + length (r ∷ rs) in
            let cursor' = advance key cursor r rs in
            with_batch i (r ∷ rs) total cursor total' cursor'
              (copy_from fuel (suc i) total' cursor')
      ]

  -- Each round but the last adds a row at least, and the loop ends at `maxRows` rows.
  unfoldable pub paged_read : ℕ → Cursor → Copied
  unfolding copy_from
  paged_read prior start = copy_from (suc (limits.max_rows - prior)) 0 prior start

-- `withLock`: the keys that are running, and the run under a key that is free.
unfoldable pub with_lock : {A : Type 0} → (String → Bool) → String → A → Option A
with_lock running k result = if running k then none else some result
