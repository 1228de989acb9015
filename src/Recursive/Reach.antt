-- ===== src/Recursive/Reach.antt =====
-- What the walk returns, against the hierarchy as a relation. (recursive.ts)
use zero_datafabric.Common.{
  ℕ, zero, suc, String, ◌≡◌, ◌↔◌, refl, true, List, [], ◌∷◌, map, Value, Row, get, has, In, In-All,
  All, All-append, inl, inr, none, is_present, subst,
}
use zero_datafabric.Recursive.{
  Spec, Tagged, Walk, LevelFetch, expand, fetched_at, run, no_walk, seeds, tag, tag_child,
  depth_limit, frontier_key_col, next_filter_col, key_in, seed_where, add_seeds,
}
use zero_datafabric.Recursive.Induct.{add_seeds_ind, absorb_ind, walk_ind}
use zero_datafabric.Recursive.Keys.{frontier_keys_sound}

-- The source holds `table` throughout, and answers an `IN` condition with the rows whose column
-- has one of the listed values.
abbrev pub Answers : List Row → LevelFetch → Type 0
Answers table fetch =
    (n : ℕ) (column : String) (keys : List Value) (r : Row)
    → In r (fetch n (key_in column keys)) ↔ (In r table × (has (get column r) keys ≡ true))

-- `c` hangs under `p` in the hierarchy.
pub record Edge (spec : Spec) (table : List Row) (p c : Row) : Type 0 where
  pub listed : In c table
  pub linked : get (next_filter_col spec) c ≡ get (frontier_key_col spec) p
  pub keyed : is_present (get (frontier_key_col spec) p) ≡ true

-- A chain of that many edges leads from a seed row to the row.
pub data Descends (spec : Spec) (table seeds : List Row) : ℕ → Row → Type 0 where
  root : {r : Row} → In r seeds → Descends spec table seeds zero r
  child :
      {d : ℕ} {p c : Row}
      → Descends spec table seeds d p
      → Edge spec table p c
      → Descends spec table seeds (suc d) c

module _ (spec : Spec) where
  module _ (table : List Row) (fetch : LevelFetch) (answers : Answers table fetch) where
    abbrev pub Reached : Tagged → Type 0
    Reached t = Descends spec table (fetch 0 (seed_where spec)) t.depth t.row

    -- The frontier at a level lies one level above it, and all that was returned is reached.
    record LevelOk (depth : ℕ) (frontier : List Tagged) (w : Walk) : Type 0 where
      above : All (λ t. Reached t × (suc t.depth ≡ depth)) frontier
      out : All Reached w.out

    child-Reached :
        (depth : ℕ) (frontier : List Tagged) (c : Row)
        → All (λ t. Reached t × (suc t.depth ≡ depth)) frontier
        → In c (fetched_at spec fetch depth frontier)
        → Descends spec table (fetch 0 (seed_where spec)) depth c
    child-Reached depth frontier c above m =
        let (listed, keyed) = (answers depth (next_filter_col spec) _ c).0 m in
        let (p, at, same, present) = frontier_keys_sound spec _ frontier keyed in
        let (reached, e) = In-All _ p frontier above at in
        subst (λ d. Descends spec table (fetch 0 (seed_where spec)) d c) e
          (child reached (record {
            listed = listed;
            linked = same;
            keyed = subst (λ v. is_present v ≡ true) same present;
          }))

    expand-Level_ok :
        (depth : ℕ) (frontier : List Tagged) (w : Walk)
        → LevelOk depth frontier w
        → LevelOk
            (suc depth)
            (expand spec fetch depth frontier w).next
            (expand spec fetch depth frontier w).walk
    expand-Level_ok depth frontier w ok =
        absorb_ind spec depth frontier (λ v next. LevelOk (suc depth) next v)
          (fetched_at spec fetch depth frontier)
          (λ c v next m h _.
            let t = tag_child spec depth frontier c in
            let reached : Reached t =
              unfold tag_child tag in child-Reached depth frontier c ok.above m in
            record {
              above =
                  All-append (λ u. Reached u × (suc u.depth ≡ suc depth)) next (t ∷ []) h.above
                    ((reached, (unfold tag_child tag in refl)), tt);
              out = All-append Reached v.out (t ∷ []) h.out (reached, tt);
            })
          w [] (record { above = tt; out = ok.out })

    tagged_ok :
        (rows : List Row)
        → ((r : Row) → In r rows → In r (fetch 0 (seed_where spec)))
        → All (λ t. Reached t × (suc t.depth ≡ 1)) (map (tag spec 0 none) rows)
    tagged_ok [] h = tt
    tagged_ok (r ∷ rows) h =
        (unfold tag in (root (h r (inl refl)), refl), tagged_ok rows (λ q m. h q (inr m)))

    seeds-Level_ok : LevelOk 1 (seeds spec fetch) (add_seeds spec (seeds spec fetch) no_walk)
    seeds-Level_ok = record {
      above = above_seeds;
      out =
          add_seeds_ind spec (λ w. All Reached w.out) (seeds spec fetch)
            (λ r w m a _.
              All-append Reached w.out (r ∷ []) a
                ((In-All _ r (seeds spec fetch) above_seeds m).0, tt))
            no_walk tt;
    }
      where
        above_seeds : All (λ t. Reached t × (suc t.depth ≡ 1)) (seeds spec fetch)
        above_seeds = unfold seeds in tagged_ok (fetch 0 (seed_where spec)) (λ r m. m)

-- On a source that holds one table throughout, every returned row is reached from a seed row by
-- as many edges of the hierarchy as its depth says.
pub run-Descends :
    (spec : Spec) (table : List Row) (fetch : LevelFetch)
    → Answers table fetch
    → All (λ t. Descends spec table (fetch 0 (seed_where spec)) t.depth t.row) (run spec fetch).rows
unfolding run
run-Descends spec table fetch answers =
    walk_ind spec fetch (depth_limit spec) (LevelOk spec table fetch answers)
      (λ w _ _. All (Reached spec table fetch answers) w.out) (λ _ _ _ ok _. ok.out)
      (λ _ _ ok. ok.out)
      (λ depth frontier w ok _. (expand-Level_ok spec table fetch answers depth frontier w ok).out)
      (λ depth frontier w ok _ _ _. expand-Level_ok spec table fetch answers depth frontier w ok)
      refl (seeds-Level_ok spec table fetch answers)
