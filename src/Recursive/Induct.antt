-- ===== src/Recursive/Induct.antt =====
-- Proof rules for the loops of recursive.ts: what each added row, and each level, keeps.
use zero_datafabric.Common.{
  ◌&&◌, ℕ, zero, suc, ◌+◌, ◌≤◌, ◌≡◌, refl, not, subst, Bool, true, false, List, [], ◌∷◌, ◌++◌,
  arith, Row, has, In, inl, inr, Bool-cases, leb, length,
}
use zero_datafabric.Recursive.{
  Spec, Tagged, Walk, LevelFetch, Level, Finished, node_key, add_row, add_seeds, absorb, levels,
  frontier_keys, tag_child, row_limit, level, is_nil, expand, fetched_at, depth_limit,
  depth_is_exact, seeds, seed_where, no_walk, walk_from_seeds,
}

module _ (spec : Spec) where
  pub add_seeds_ind :
      (P : Walk → Type 0) (rs : List Tagged)
      → ((r : Tagged) (w : Walk)
          → In r rs
          → P w
          → has (node_key spec r.row) w.seen ≡ false
          → P (add_row spec w r))
      → (w : Walk) → P w
      → P (add_seeds spec rs w)
  unfolding add_seeds
  add_seeds_ind P [] step w p = p
  add_seeds_ind P (r ∷ rs) step w p = elim (Bool-cases (has (node_key spec r.row) w.seen)) [
    | inl old ↦ rw old (add_seeds_ind P rs (λ s v m. step s v (inr m)) w p)
    | inr new ↦ rw new (
        add_seeds_ind P rs (λ s v m. step s v (inr m)) (add_row spec w r)
          (step r w (inl refl) p new))
  ]

  module _ (depth : ℕ) (frontier : List Tagged) where
    pub absorb_ind :
        (P : Walk → List Tagged → Type 0) (cs : List Row)
        → ((c : Row) (w : Walk) (next : List Tagged)
            → In c cs
            → P w next
            → has (node_key spec c) w.seen ≡ false
            → P
                (add_row spec w (tag_child spec depth frontier c))
                (next ++ tag_child spec depth frontier c ∷ []))
        → (w : Walk) (next : List Tagged) → P w next
        → P (absorb spec depth frontier cs w next).walk (absorb spec depth frontier cs w next).next
    unfolding absorb
    absorb_ind P [] step w next p = p
    absorb_ind P (c ∷ cs) step w next p = elim (Bool-cases (has (node_key spec c) w.seen)) [
      | inl old ↦ rw old (absorb_ind P cs (λ d v n m. step d v n (inr m)) w next p)
      | inr new ↦ elim (Bool-cases (leb (row_limit spec) (length (add_row spec w t).out))) [
        | inl full ↦ rw (new, full) (step c w next (inl refl) p new)
        | inr more ↦
            rw (new, more)
              (absorb_ind P cs (λ d v n m. step d v n (inr m)) (add_row spec w t) (next ++ t ∷ [])
                (step c w next (inl refl) p new))
      ]
    ]
      where
        t : Tagged
        t = tag_child spec depth frontier c

  -- What every level keeps holds at the end: the loop ends for want of keys, of levels or of rows.
  -- `Q` says what is to hold of the walk and of the two flags.
  module _ (fetch : LevelFetch) (total : ℕ) (P : ℕ → List Tagged → Walk → Type 0)
      (Q : Walk → Bool → Bool → Type 0)
      (no_keys : (depth : ℕ) (frontier : List Tagged) (w : Walk)
        → P depth frontier w
        → is_nil (frontier_keys spec frontier) ≡ true
        → Q w false false)
      (no_levels : (frontier : List Tagged) (w : Walk)
        → P (suc total) frontier w
        → Q w (depth_is_exact spec && not (is_nil frontier)) false)
      (no_room : (depth : ℕ) (frontier : List Tagged) (w : Walk)
        → P depth frontier w
        → depth ≤ total
        → Q (expand spec fetch depth frontier w).walk false true)
      (step : (depth : ℕ) (frontier : List Tagged) (w : Walk)
        → P depth frontier w
        → depth ≤ total
        → is_nil (frontier_keys spec frontier) ≡ false
        → (expand spec fetch depth frontier w).full ≡ false
        → P
            (suc depth)
            (expand spec fetch depth frontier w).next
            (expand spec fetch depth frontier w).walk) where
    abbrev Ends : Finished → Type 0
    Ends f = Q f.walk f.by_depth f.by_rows

    pub levels_ind :
        (left depth : ℕ) (frontier : List Tagged) (w : Walk) (trace : List Level)
        → left + depth ≡ suc total
        → P depth frontier w
        → Ends (levels spec fetch left depth frontier w trace)
    unfolding levels
    levels_ind zero depth frontier w trace e p =
        no_levels frontier w (subst (λ d. P d frontier w) (omega arith) p)
    levels_ind (suc left) depth frontier w trace e p =
        elim (Bool-cases (is_nil (frontier_keys spec frontier))) [
          | inl empty ↦ rw empty (no_keys depth frontier w p empty)
          | inr keys ↦ elim (Bool-cases (expand spec fetch depth frontier w).full) [
            | inl full ↦ rw (keys, full) (no_room depth frontier w p (omega arith))
            | inr room ↦
                rw (keys, room)
                  (levels_ind left (suc depth) (expand spec fetch depth frontier w).next
                    (expand spec fetch depth frontier w).walk
                    (trace
                      ++ level depth frontier (fetched_at spec fetch depth frontier)
                          (expand spec fetch depth frontier w).next
                        ∷ [])
                    (omega arith) (step depth frontier w p (omega arith) keys room))
          ]
        ]

    -- The rule for the whole walk: `P` holds of the seeds, at the first level.
    pub walk_ind :
        depth_limit spec ≡ total
        → P 1 (seeds spec fetch) (add_seeds spec (seeds spec fetch) no_walk)
        → Ends (walk_from_seeds spec fetch)
    unfolding walk_from_seeds
    walk_ind e p =
        levels_ind (depth_limit spec) 1 (seeds spec fetch)
          (add_seeds spec (seeds spec fetch) no_walk)
          (level 0 [] (fetch 0 (seed_where spec)) (seeds spec fetch) ∷ []) (omega arith) p
