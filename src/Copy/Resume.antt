-- ===== src/Copy/Resume.antt =====
-- What a paged copy by key has read when it ends, and where the next run starts. (copy_util.ts)
use zero_datafabric.Common.{
  ℕ, zero, suc, ◌+◌, ◌-◌, ◌≤◌, ◌<◌, ◌≡◌, refl, sym, ap, subst, ◌∙◌, String, Bool, List, [], ◌∷◌,
  ◌++◌, append-nil, append_assoc, arith, length, take, drop, take-drop, drop-short, Value, Row,
}
use zero_datafabric.Copy.{
  Limits, Cursor, last_key, offset, page_query, after_key, advance, Surroundings, Outcome, finished,
  paused, memory_ceiling, batch_failed, save_failed, row_cap, out_of_fuel, Copied, ended, and_saved,
  paged_read,
}
use zero_datafabric.Copy.Rounds.{Rules, Stopped, by_pause, by_memory, by_batch, page, copy_from_ind}
use zero_datafabric.Copy.Pages.{StrictOrder, remaining, Ascending, Answers, page_split}

module _ (gt : Value → Value → Bool) (key : String) (strict : StrictOrder gt) (table : List Row)
    (ascending : Ascending gt key table) (limits : Limits) (env : Surroundings)
    (answers : Answers gt key table env) (positive : 1 ≤ limits.batch_size) where
  -- What a run from a cursor has done when it ends: the rows whose progress was saved, and after
  -- them the rows that the next run has to copy, are the rows that this run had to copy. Rows
  -- that were written and not saved are the first of those; a finished copy leaves none.
  abbrev Resumable : Cursor → Copied → Type 0
  Resumable start c =
      (c.saved ++ remaining gt key c.cursor table ≡ remaining gt key start table)
      × ((n : ℕ) × (c.unsaved ≡ take n (remaining gt key c.cursor table)))
      × (c.outcome ≡ finished → remaining gt key c.cursor table ≡ [])

  abbrev ByKey : ℕ → ℕ → ℕ → Cursor → Copied → Type 0
  ByKey fuel i t (offset n) c = Unit
  ByKey fuel i t (last_key v) c = Resumable (last_key v) c

  read_page :
      (i : ℕ) (v : Value) (r : Row) (rs : List Row)
      → page key limits env i (last_key v) ≡ r ∷ rs
      → take limits.batch_size (remaining gt key (last_key v) table) ≡ r ∷ rs
  unfolding page_query
  read_page i v r rs read = sym (answers i limits.batch_size (after_key v)) ∙ read

  -- The rows to copy are the page and what comes after the advanced cursor.
  advance_split :
      (i : ℕ) (v : Value) (r : Row) (rs : List Row)
      → page key limits env i (last_key v) ≡ r ∷ rs
      → (remaining gt key (advance key (last_key v) r rs) table
          ≡ drop limits.batch_size (remaining gt key (last_key v) table))
        × ((r ∷ rs) ++ remaining gt key (advance key (last_key v) r rs) table
            ≡ remaining gt key (last_key v) table)
  unfolding advance
  advance_split i v r rs read =
      let got = read_page i v r rs read in
      let (here, rest) =
        page_split gt key strict table ascending (after_key v) limits.batch_size r rs got in
      let left : remaining gt key (advance key (last_key v) r rs) table
          ≡ drop limits.batch_size (remaining gt key (last_key v) table) =
        rw here rest in
      (
        left,
        ap (λ xs. (r ∷ rs) ++ xs) left
            ∙ ap (λ xs. xs ++ drop limits.batch_size (remaining gt key (last_key v) table))
                (sym got)
            ∙ take-drop limits.batch_size (remaining gt key (last_key v) table),
      )

  ended-Resumable :
      (o : Outcome) (t : ℕ) (c : Cursor)
      → (o ≡ finished → remaining gt key c table ≡ [])
      → Resumable c (ended o t c)
  ended-Resumable o t c left = (refl, (0, refl), left)

  stops-Resumable :
      (t : ℕ) (v : Value) (o : Outcome)
      → Stopped o
      → Resumable (last_key v) (ended o t (last_key v))
  stops-Resumable t v paused by_pause = ended-Resumable paused t (last_key v) (λ e. cc)
  stops-Resumable t v memory_ceiling by_memory =
      ended-Resumable memory_ceiling t (last_key v) (λ e. cc)
  stops-Resumable t v batch_failed by_batch = ended-Resumable batch_failed t (last_key v) (λ e. cc)
  stops-Resumable t v finished s = elim s [ ]
  stops-Resumable t v save_failed s = elim s [ ]
  stops-Resumable t v row_cap s = elim s [ ]
  stops-Resumable t v out_of_fuel s = elim s [ ]

  empty_page : (n : ℕ) (xs : List Row) → 1 ≤ n → take n xs ≡ [] → xs ≡ []
  empty_page zero xs h e = absurd (omega arith)
  empty_page (suc n) [] h e = refl
  empty_page (suc n) (x ∷ xs) h e = cc

  none_after :
      (i : ℕ) (v : Value)
      → page key limits env i (last_key v) ≡ []
      → remaining gt key (last_key v) table ≡ []
  unfolding page_query
  none_after i v read =
      empty_page limits.batch_size (remaining gt key (last_key v) table) positive
        (sym (answers i limits.batch_size (after_key v)) ∙ read)

  -- A page and then a run from the cursor after it.
  and_saved-Resumable :
      (i : ℕ) (v : Value) (r : Row) (rs : List Row) (rest : Copied)
      → page key limits env i (last_key v) ≡ r ∷ rs
      → Resumable (advance key (last_key v) r rs) rest
      → Resumable (last_key v) (and_saved (r ∷ rs) rest)
  and_saved-Resumable i v r rs rest read (whole, unsaved, left) = (
    append_assoc (r ∷ rs) rest.saved (remaining gt key rest.cursor table)
        ∙ ap (λ xs. (r ∷ rs) ++ xs) whole
        ∙ (advance_split i v r rs read).1,
    unsaved,
    left,
  )

  short_rest :
      (i : ℕ) (v : Value) (r : Row) (rs : List Row)
      → page key limits env i (last_key v) ≡ r ∷ rs
      → length (r ∷ rs) < limits.batch_size
      → drop limits.batch_size (remaining gt key (last_key v) table) ≡ []
  short_rest i v r rs read short =
      drop-short limits.batch_size (remaining gt key (last_key v) table)
        (subst (λ l. length l < limits.batch_size) (sym (read_page i v r rs read)) short)

  resumable : Rules key limits env ByKey
  unfolding advance
  resumable = record {
    exhausted = exhausted;
    stops = stops;
    nothing_left = nothing_left;
    not_saved = not_saved;
    last_page = last_page;
    at_cap = at_cap;
    goes_on = goes_on;
  }
    where
      exhausted : (i t : ℕ) (c : Cursor) → ByKey 0 i t c (ended out_of_fuel t c)
      exhausted i t (last_key v) = ended-Resumable out_of_fuel t (last_key v) (λ e. cc)
      exhausted i t (offset n) = tt

      stops :
          (fuel i t : ℕ) (c : Cursor) (o : Outcome)
          → Stopped o
          → ByKey (suc fuel) i t c (ended o t c)
      stops fuel i t (last_key v) o s = stops-Resumable t v o s
      stops fuel i t (offset n) o s = tt

      nothing_left :
          (fuel i t : ℕ) (c : Cursor)
          → page key limits env i c ≡ []
          → ByKey (suc fuel) i t c (ended finished t c)
      nothing_left fuel i t (last_key v) read =
          ended-Resumable finished t (last_key v) (λ _. none_after i v read)
      nothing_left fuel i t (offset n) read = tt

      not_saved :
          (fuel i t : ℕ) (c : Cursor) (r : Row) (rs : List Row)
          → page key limits env i c ≡ r ∷ rs
          → ByKey (suc fuel) i t c (record {
            outcome = save_failed;
            total = t;
            cursor = c;
            saved = [];
            unsaved = r ∷ rs;
          })
      not_saved fuel i t (last_key v) r rs read =
          (refl, (limits.batch_size, sym (read_page i v r rs read)), λ e. cc)
      not_saved fuel i t (offset n) r rs read = tt

      last_page :
          (fuel i t : ℕ) (c : Cursor) (r : Row) (rs : List Row)
          → page key limits env i c ≡ r ∷ rs
          → length (r ∷ rs) < limits.batch_size
          → ByKey
              (suc fuel)
              i
              t
              c
              (and_saved (r ∷ rs) (ended finished (t + length (r ∷ rs)) (advance key c r rs)))
      last_page fuel i t (last_key v) r rs read short =
          let c = advance key (last_key v) r rs in
          and_saved-Resumable i v r rs (ended finished (t + length (r ∷ rs)) c) read (
            ended-Resumable finished (t + length (r ∷ rs)) c
              (λ _. (advance_split i v r rs read).0 ∙ short_rest i v r rs read short))
      last_page fuel i t (offset n) r rs read short = tt

      at_cap :
          (fuel i t : ℕ) (c : Cursor) (r : Row) (rs : List Row)
          → page key limits env i c ≡ r ∷ rs
          → limits.max_rows ≤ t + length (r ∷ rs)
          → ByKey
              (suc fuel)
              i
              t
              c
              (and_saved (r ∷ rs) (ended row_cap (t + length (r ∷ rs)) (advance key c r rs)))
      at_cap fuel i t (last_key v) r rs read over =
          let c = advance key (last_key v) r rs in
          and_saved-Resumable i v r rs (ended row_cap (t + length (r ∷ rs)) c) read
            (ended-Resumable row_cap (t + length (r ∷ rs)) c (λ e. cc))
      at_cap fuel i t (offset n) r rs read over = tt

      goes_on :
          (fuel i t : ℕ) (c : Cursor) (r : Row) (rs : List Row) (rest : Copied)
          → page key limits env i c ≡ r ∷ rs
          → t + length (r ∷ rs) < limits.max_rows
          → ByKey fuel (suc i) (t + length (r ∷ rs)) (advance key c r rs) rest
          → ByKey (suc fuel) i t c (and_saved (r ∷ rs) rest)
      goes_on fuel i t (last_key v) r rs rest read under q =
          and_saved-Resumable i v r rs rest read q
      goes_on fuel i t (offset n) r rs rest read under q = tt

  paged_read-whole :
      (prior : ℕ) (start : Value)
      → Resumable (last_key start) (paged_read key limits env prior (last_key start))
  unfolding paged_read
  paged_read-whole prior start =
      copy_from_ind key limits env ByKey resumable (suc (limits.max_rows - prior)) 0 prior
        (last_key start)

  -- A copy by key, of a table in strictly ascending key order with no key missing, from a source
  -- that answers each page query from that table: however it ends (finished, paused, failed at the
  -- sink or at the checkpoint store, over memory or over the row cap), the rows whose progress it
  -- saved, followed by the rows that a run resumed from the saved cursor has to copy, are the rows
  -- that it had to copy, each once and in order. Rows that were written and not saved are the first
  -- of those that the resumed run copies.
  pub paged_read-resumes :
      (prior : ℕ) (start : Value)
      → ((paged_read key limits env prior (last_key start)).saved
            ++ remaining gt key (paged_read key limits env prior (last_key start)).cursor table
          ≡ remaining gt key (last_key start) table)
        × ((n : ℕ) × ((paged_read key limits env prior (last_key start)).unsaved
              ≡ take n (
                  remaining gt key
                    (paged_read key limits env prior (last_key start)).cursor
                    table)))
  paged_read-resumes prior start =
      let (whole, unsaved, left) = paged_read-whole prior start in (whole, unsaved)

  -- Under the same conditions, a copy that finishes has saved every row of the table after the key
  -- that it started from, each once and in order.
  pub paged_read-copies_all :
      (prior : ℕ) (start : Value)
      → (paged_read key limits env prior (last_key start)).outcome ≡ finished
      → (paged_read key limits env prior (last_key start)).saved
        ≡ remaining gt key (last_key start) table
  paged_read-copies_all prior start done =
      let (whole, unsaved, left) = paged_read-whole prior start in
      let saved = (paged_read key limits env prior (last_key start)).saved in
      sym (append-nil saved) ∙ ap (λ xs. saved ++ xs) (sym (left done)) ∙ whole
