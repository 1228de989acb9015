-- ===== src/Copy/Rounds.antt =====
-- An induction principle for the loop of a paged copy. (copy_util.ts)
use zero_datafabric.Common.{
  ℕ, zero, suc, ◌+◌, ◌≤◌, ◌<◌, ◌≡◌, ◌⊎◌, refl, inl, inr, Bool-cases, String, List, [], ◌∷◌, arith,
  ltb, leb, length, Row,
}
use zero_datafabric.Copy.{
  Limits, Cursor, page_query, advance, Surroundings, Outcome, finished, paused, memory_ceiling,
  batch_failed, save_failed, row_cap, out_of_fuel, Copied, ended, and_saved, after_batch,
  with_batch, copy_from,
}

List-cases : {A : Type 0} (xs : List A) → (xs ≡ []) ⊎ ((x : A) × (ys : List A) × (xs ≡ x ∷ ys))
List-cases [] = inl refl
List-cases (x ∷ xs) = inr (x, xs, refl)

-- The outcomes that leave everything as it was.
pub data Stopped : Outcome → Type 0 where
  by_pause : Stopped paused
  by_memory : Stopped memory_ceiling
  by_batch : Stopped batch_failed

module _ (key : String) (limits : Limits) (env : Surroundings) where
  -- The page of round `i` after a cursor.
  abbrev pub page : ℕ → Cursor → List Row
  page i cursor = env.query i (page_query key limits.batch_size cursor)

  -- A property of a run, from its fuel, round, total and cursor, that each way through a round
  -- keeps.
  pub record Rules (Q : ℕ → ℕ → ℕ → Cursor → Copied → Type 0) : Type 0 where
    pub exhausted : (i t : ℕ) (c : Cursor) → Q 0 i t c (ended out_of_fuel t c)
    pub stops :
        (fuel i t : ℕ) (c : Cursor) (o : Outcome) → Stopped o → Q (suc fuel) i t c (ended o t c)
    pub nothing_left :
        (fuel i t : ℕ) (c : Cursor) → page i c ≡ [] → Q (suc fuel) i t c (ended finished t c)
    pub not_saved :
        (fuel i t : ℕ) (c : Cursor) (r : Row) (rs : List Row)
        → page i c ≡ r ∷ rs
        → Q
            (suc fuel)
            i
            t
            c
            (record { outcome = save_failed; total = t; cursor = c; saved = []; unsaved = r ∷ rs })
    pub last_page :
        (fuel i t : ℕ) (c : Cursor) (r : Row) (rs : List Row)
        → page i c ≡ r ∷ rs
        → length (r ∷ rs) < limits.batch_size
        → Q
            (suc fuel)
            i
            t
            c
            (and_saved (r ∷ rs) (ended finished (t + length (r ∷ rs)) (advance key c r rs)))
    pub at_cap :
        (fuel i t : ℕ) (c : Cursor) (r : Row) (rs : List Row)
        → page i c ≡ r ∷ rs
        → limits.max_rows ≤ t + length (r ∷ rs)
        → Q
            (suc fuel)
            i
            t
            c
            (and_saved (r ∷ rs) (ended row_cap (t + length (r ∷ rs)) (advance key c r rs)))
    pub goes_on :
        (fuel i t : ℕ) (c : Cursor) (r : Row) (rs : List Row) (rest : Copied)
        → page i c ≡ r ∷ rs
        → t + length (r ∷ rs) < limits.max_rows
        → Q fuel (suc i) (t + length (r ∷ rs)) (advance key c r rs) rest
        → Q (suc fuel) i t c (and_saved (r ∷ rs) rest)

  module _ (Q : ℕ → ℕ → ℕ → Cursor → Copied → Type 0) (rules : Rules Q) where
    after_batch_ind :
        (fuel i t : ℕ) (c : Cursor) (r : Row) (rs : List Row) (rest : Copied)
        → page i c ≡ r ∷ rs
        → Q fuel (suc i) (t + length (r ∷ rs)) (advance key c r rs) rest
        → Q
            (suc fuel)
            i
            t
            c
            (after_batch key limits env (r ∷ rs) (t + length (r ∷ rs)) (advance key c r rs) rest)
    after_batch_ind fuel i t c r rs rest read q =
        elim (Bool-cases (ltb (length (r ∷ rs)) limits.batch_size)) [
          | inl short ↦ rw short (rules.last_page fuel i t c r rs read (ground arith))
          | inr full ↦ elim (Bool-cases (leb limits.max_rows (t + length (r ∷ rs)))) [
            | inl over ↦ rw (full, over) (rules.at_cap fuel i t c r rs read (ground arith))
            | inr under ↦
                rw (full, under) (rules.goes_on fuel i t c r rs rest read (ground arith) q)
          ]
        ]

    with_batch_ind :
        (fuel i t : ℕ) (c : Cursor) (r : Row) (rs : List Row) (rest : Copied)
        → page i c ≡ r ∷ rs
        → Q fuel (suc i) (t + length (r ∷ rs)) (advance key c r rs) rest
        → Q (suc fuel) i t c (
            with_batch key limits env i
              (r ∷ rs)
              t
              c
              (t + length (r ∷ rs))
              (advance key c r rs)
              rest)
    with_batch_ind fuel i t c r rs rest read q = elim (Bool-cases (env.batch_fails i)) [
      | inl failed ↦ rw failed (rules.stops fuel i t c batch_failed by_batch)
      | inr written ↦ elim (Bool-cases (env.save_fails i)) [
        | inl lost ↦ rw (written, lost) (rules.not_saved fuel i t c r rs read)
        | inr kept ↦ rw (written, kept) (after_batch_ind fuel i t c r rs rest read q)
      ]
    ]

    pub copy_from_ind :
        (fuel i t : ℕ) (c : Cursor) → Q fuel i t c (copy_from key limits env fuel i t c)
    unfolding copy_from
    copy_from_ind zero i t c = rules.exhausted i t c
    copy_from_ind (suc fuel) i t c = elim (Bool-cases (env.should_stop i)) [
      | inl stop ↦ rw stop (rules.stops fuel i t c paused by_pause)
      | inr run ↦ elim (Bool-cases (env.over_ceiling i)) [
        | inl over ↦ rw (run, over) (rules.stops fuel i t c memory_ceiling by_memory)
        | inr under ↦ elim (List-cases (page i c)) [
          | inl none_left ↦ rw (run, under, none_left) (rules.nothing_left fuel i t c none_left)
          | inr (r, rs, read) ↦
              rw (run, under, read)
                (with_batch_ind fuel i t c r rs
                  (copy_from key limits env fuel (suc i) (t + length (r ∷ rs)) (advance key c r rs))
                  read (copy_from_ind fuel (suc i) (t + length (r ∷ rs)) (advance key c r rs)))
        ]
      ]
    ]
