-- ===== src/Recursive/Bounds.antt =====
-- The bounds on the work of the walk. (recursive.ts, `maxDepth` and `maxRows`)
use Prim.Native.Nat.{max}
use zero_datafabric.Common.{
  ℕ, suc, ◌+◌, ◌≤◌, ◌<◌, ◌≡◌, refl, false, List, [], ◌∷◌, ◌++◌, arith, inl, inr, has, Bool-cases,
  length, length-append, All, All-append, Row, ◌⊎◌, leb,
}
use zero_datafabric.Recursive.{
  Spec, Tagged, Walk, LevelFetch, run, depth_limit, row_limit, expand, absorb, node_key, add_row,
  tag_child, tag, fetched_at, add_seeds, no_walk, seeds,
}
use zero_datafabric.Recursive.Induct.{absorb_ind, walk_ind}

abbrev pub AtMost : ℕ → List Tagged → Type 0
AtMost n ts = All (λ t. t.depth ≤ n) ts

module _ (spec : Spec) where
  expand-AtMost :
      (fetch : LevelFetch) (depth n : ℕ) (frontier : List Tagged) (w : Walk)
      → depth ≤ n
      → AtMost n w.out
      → AtMost n (expand spec fetch depth frontier w).walk.out
  expand-AtMost fetch depth n frontier w h a =
      absorb_ind spec depth frontier (λ v _. AtMost n v.out) (fetched_at spec fetch depth frontier)
        (λ c v _ _ b _.
          All-append (λ t. t.depth ≤ n) v.out (tag_child spec depth frontier c ∷ []) b
            (unfold tag_child tag in (h, tt)))
        w [] a

  -- Rows from the source, or below the cap.
  abbrev Room : ℕ → Walk → Type 0
  Room s w = (length w.out ≤ s) ⊎ (length w.out < row_limit spec)

  absorb-Room :
      (s depth : ℕ) (frontier : List Tagged) (cs : List Row) (w : Walk) (next : List Tagged)
      → Room s w
      → (length (absorb spec depth frontier cs w next).walk.out ≤ max (row_limit spec) (suc s))
        × ((absorb spec depth frontier cs w next).full ≡ false
            → Room s (absorb spec depth frontier cs w next).walk)
  unfolding absorb
  absorb-Room s depth frontier [] w next h = (omega arith, λ _. h)
  absorb-Room s depth frontier (c ∷ cs) w next h =
      elim (Bool-cases (has (node_key spec c) w.seen)) [
        | inl old ↦ rw old (absorb-Room s depth frontier cs w next h)
        | inr new ↦ elim (Bool-cases (leb (row_limit spec) (length (add_row spec w t).out))) [
          | inl full ↦ rw (new, full) (omega (arith, longer), λ e. cc)
          | inr more ↦
              rw (new, more)
                (absorb-Room s depth frontier cs (add_row spec w t) (next ++ t ∷ [])
                  (inr (ground (arith, more))))
        ]
      ]
    where
      t : Tagged
      t = tag_child spec depth frontier c

      longer : length (w.out ++ t ∷ []) ≡ length w.out + 1
      longer = length-append w.out (t ∷ [])

-- The rows that the seed query contributes.
abbrev pub seed_rows : Spec → LevelFetch → List Tagged
seed_rows spec fetch = (add_seeds spec (seeds spec fetch) no_walk).out

-- A result has at most `maxRows` rows, rounded up; or, where the seed query alone gives that many,
-- at most one row more than it gives.
pub run-rows_bounded :
    (spec : Spec) (fetch : LevelFetch)
    → length (run spec fetch).rows ≤ max (row_limit spec) (suc (length (seed_rows spec fetch)))
unfolding run
run-rows_bounded spec fetch =
    walk_ind spec fetch (depth_limit spec) (λ _ _ w. Room spec (length (seed_rows spec fetch)) w)
      (λ w _ _. length w.out ≤ max (row_limit spec) (suc (length (seed_rows spec fetch))))
      (λ _ _ _ r _. omega arith) (λ _ _ r. omega arith)
      (λ depth frontier w r _. (absorb-Room spec _ depth frontier _ w [] r).0)
      (λ depth frontier w r _ _ room. (absorb-Room spec _ depth frontier _ w [] r).1 room) refl
      (inl (omega arith))
