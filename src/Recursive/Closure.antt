-- ===== src/Recursive/Closure.antt =====
-- The walk downwards misses nothing, unless a flag says so. (recursive.ts)
use zero_datafabric.Common.{
  ◌&&◌, ℕ, suc, ◌≡◌, ◌⊎◌, refl, true, false, List, [], ◌∷◌, ◌++◌, Value, Row, get, has, has-nil,
  has-cons, In, In-append_left, In-append_right, In-map, not, inl, inr, Bool, none, is_present, sym,
  subst, ◌∙◌,
}
use zero_datafabric.Recursive.{
  Spec, Tagged, Walk, LevelFetch, node_key, add_row, expand, fetched_at, run, no_walk, seeds, tag,
  tag_child, depth_limit, depth_is_exact, frontier_keys, frontier_key_col, next_filter_col,
  seed_where, is_down, add_seeds, walk_from_seeds, distinct_from, is_nil,
}
use zero_datafabric.Recursive.Induct.{add_seeds_ind, absorb_ind, walk_ind}
use zero_datafabric.Recursive.Keys.{frontier_keys_complete}
use zero_datafabric.Recursive.Reach.{Answers, Descends, root, child}
use zero_datafabric.Recursive.Absorbed.{Returned, absorb_all, add_seeds_all}

module _ (spec : Spec) where
  -- What a level makes known stands in the next frontier.
  abbrev News : Walk → Walk → List Tagged → Type 0
  News before w next =
      (k : Value) → has k w.seen ≡ true → (has k before.seen ≡ true) ⊎ Returned spec k next

  -- All that is known is returned.
  abbrev pub KnownReturned : Walk → Type 0
  KnownReturned w = (k : Value) → has k w.seen ≡ true → Returned spec k w.out

  News-add :
      (before w : Walk) (next : List Tagged) (t : Tagged)
      → News before w next
      → News before (add_row spec w t) (next ++ t ∷ [])
  News-add before w next t news k h = elim (has-cons k (node_key spec t.row) w.seen h) [
    | inl e ↦ inr (t, In-append_right t next (t ∷ []) (inl refl), e)
    | inr old ↦ elim (news k old) [
      | inl s ↦ inl s
      | inr (u, m, e) ↦ inr (u, In-append_left u next (t ∷ []) m, e)
    ]
  ]

  KnownReturned-add : (w : Walk) (t : Tagged) → KnownReturned w → KnownReturned (add_row spec w t)
  KnownReturned-add w t known k h = elim (has-cons k (node_key spec t.row) w.seen h) [
    | inl e ↦ (t, In-append_right t w.out (t ∷ []) (inl refl), e)
    | inr old ↦ let (u, m, e) = known k old in (u, In-append_left u w.out (t ∷ []) m, e)
  ]

  expand-News :
      (fetch : LevelFetch) (depth : ℕ) (frontier : List Tagged) (w : Walk)
      → News w (expand spec fetch depth frontier w).walk (expand spec fetch depth frontier w).next
  expand-News fetch depth frontier w =
      absorb_ind spec depth frontier (News w) (fetched_at spec fetch depth frontier)
        (λ c v next _ news _. News-add w v next (tag_child spec depth frontier c) news) w []
        (λ k h. inl h)

  expand-KnownReturned :
      (fetch : LevelFetch) (depth : ℕ) (frontier : List Tagged) (w : Walk)
      → KnownReturned w
      → KnownReturned (expand spec fetch depth frontier w).walk
  expand-KnownReturned fetch depth frontier w known =
      absorb_ind spec depth frontier (λ v _. KnownReturned v) (fetched_at spec fetch depth frontier)
        (λ c v next _ kn _. KnownReturned-add v (tag_child spec depth frontier c) kn) w [] known

  module _ (table : List Row) (fetch : LevelFetch) (answers : Answers table fetch)
      (down : is_down spec.direction ≡ true) where
    -- Every row of the table that hangs under the node `k` is known.
    abbrev Closed : Walk → Value → Type 0
    Closed w k =
        (c : Row)
        → In c table
        → get spec.parent c ≡ k
        → is_present k ≡ true
        → has (node_key spec c) w.seen ≡ true

    record OpenOnly (depth : ℕ) (frontier : List Tagged) (w : Walk) : Type 0 where
      seeded : (r : Row) → In r (fetch 0 (seed_where spec)) → has (node_key spec r) w.seen ≡ true
      returned : KnownReturned w
      closed : (k : Value) → has k w.seen ≡ true → Returned spec k frontier ⊎ Closed w k

    key_is_node : (r : Row) → get (frontier_key_col spec) r ≡ node_key spec r
    key_is_node r = rw down

    link_is_parent : (r : Row) → get (next_filter_col spec) r ≡ get spec.parent r
    link_is_parent r = rw down

    -- The rows under a node of the frontier are fetched.
    fetched_under :
        (depth : ℕ) (frontier : List Tagged) (t : Tagged) (c : Row)
        → In t frontier
        → In c table
        → get spec.parent c ≡ node_key spec t.row
        → is_present (node_key spec t.row) ≡ true
        → In c (fetched_at spec fetch depth frontier)
    fetched_under depth frontier t c m listed linked present =
        (answers depth (next_filter_col spec) (frontier_keys spec frontier) c).1 (
          listed,
          subst (λ v. has v (frontier_keys spec frontier) ≡ true)
              (key_is_node t.row ∙ sym linked ∙ sym (link_is_parent c))
              (frontier_keys_complete spec t frontier m
                (subst (λ v. is_present v ≡ true) (sym (key_is_node t.row)) present)),
        )

    expand-Open_only :
        (depth : ℕ) (frontier : List Tagged) (w : Walk)
        → OpenOnly depth frontier w
        → (expand spec fetch depth frontier w).full ≡ false
        → OpenOnly
            (suc depth)
            (expand spec fetch depth frontier w).next
            (expand spec fetch depth frontier w).walk
    expand-Open_only depth frontier w ok room = record {
      seeded = λ r m. all_known (node_key spec r) (inl (ok.seeded r m));
      returned = expand-KnownReturned fetch depth frontier w ok.returned;
      closed = λ k h. elim (expand-News fetch depth frontier w k h) [
        | inl old ↦ inr (elim (ok.closed k old) [
          | inl (t, m, same) ↦ λ c listed linked present. all_known (node_key spec c) (
              inr (
                c,
                fetched_under depth frontier t c m listed (linked ∙ same)
                    (subst (λ v. is_present v ≡ true) same present),
                refl,
              ))
          | inr closed ↦ λ c listed linked present.
              all_known (node_key spec c) (inl (closed c listed linked present))
        ])
        | inr new ↦ inl new
      ];
    }
      where
        all_known :
            (k : Value)
            → (has k w.seen ≡ true)
              ⊎ ((c : Row) × In c (fetched_at spec fetch depth frontier) × (k ≡ node_key spec c))
            → has k (expand spec fetch depth frontier w).walk.seen ≡ true
        all_known = absorb_all spec depth frontier (fetched_at spec fetch depth frontier) w [] room

    -- What is to hold at the end, where no flag is set.
    record Complete (w : Walk) : Type 0 where
      seeded : (r : Row) → In r (fetch 0 (seed_where spec)) → has (node_key spec r) w.seen ≡ true
      returned : KnownReturned w
      closed : (k : Value) → has k w.seen ≡ true → Closed w k

    Open_only-Complete :
        (depth : ℕ) (frontier : List Tagged) (w : Walk)
        → OpenOnly depth frontier w
        → is_nil (frontier_keys spec frontier) ≡ true
        → Complete w
    Open_only-Complete depth frontier w ok none_left = record {
      seeded = ok.seeded;
      returned = ok.returned;
      closed = λ k h. elim (ok.closed k h) [
        | inl (t, m, same) ↦ λ c listed linked present.
            absurd (
              no_key t m
                (subst (λ v. is_present v ≡ true) (same ∙ sym (key_is_node t.row)) present))
        | inr closed ↦ closed
      ];
    }
      where
        nothing_in : (v : Value) (vs : List Value) → is_nil vs ≡ true → ¬ (has v vs ≡ true)
        nothing_in v [] e h = has-nil v h
        nothing_in v (u ∷ vs) e h = cc

        no_key :
            (t : Tagged) → In t frontier → ¬ (is_present (get (frontier_key_col spec) t.row) ≡ true)
        no_key t m p = nothing_in _ _ none_left (frontier_keys_complete spec t frontier m p)

    Complete-Descends :
        (w : Walk)
        → Complete w
        → {d : ℕ} {r : Row} → Descends spec table (fetch 0 (seed_where spec)) d r
        → has (node_key spec r) w.seen ≡ true
    Complete-Descends w ok (root {r} m) = ok.seeded r m
    Complete-Descends w ok (child {p} {c} above edge) =
        ok.closed (node_key spec p) (Complete-Descends w ok above) c edge.listed
          (sym (link_is_parent c) ∙ edge.linked ∙ key_is_node p)
          (subst (λ v. is_present v ≡ true) (key_is_node p) edge.keyed)

    seeds-Open_only : OpenOnly 1 (seeds spec fetch) (add_seeds spec (seeds spec fetch) no_walk)
    seeds-Open_only = record {
      seeded = λ r m. add_seeds_all spec (seeds spec fetch) no_walk (node_key spec r) (
          inr (
            tag spec 0 none r,
            unfold seeds in In-map (tag spec 0 none) r _ m,
            unfold tag in refl,
          ));
      returned =
          add_seeds_ind spec KnownReturned (seeds spec fetch)
            (λ r w _ known _. KnownReturned-add w r known) no_walk (λ k h. absurd (has-nil k h));
      closed = λ k h. inl (
          add_seeds_ind spec
            (λ w. (j : Value) → has j w.seen ≡ true → Returned spec j (seeds spec fetch))
            (seeds spec fetch)
            (λ r w m known _ j g. elim (has-cons j (node_key spec r.row) w.seen g) [
              | inl e ↦ (r, m, e)
              | inr old ↦ known j old
            ])
            no_walk (λ j g. absurd (has-nil j g)) k h);
    }

-- Walking down a source that holds one table throughout, with a `maxDepth` that is an integer once
-- it is clamped: where no flag says that the result was cut, each row that a chain of edges leads
-- to from a seed row is in the result, by its node key.
pub run_complete :
    (spec : Spec) (table : List Row) (fetch : LevelFetch)
    → Answers table fetch
    → is_down spec.direction ≡ true
    → depth_is_exact spec ≡ true
    → (run spec fetch).truncated_by_depth ≡ false
    → (run spec fetch).truncated_by_rows ≡ false
    → {d : ℕ} {r : Row} → Descends spec table (fetch 0 (seed_where spec)) d r
    → Returned spec (node_key spec r) (run spec fetch).rows
unfolding run
run_complete spec table fetch answers down exact by_depth by_rows {d} {r} chain =
    done.returned (node_key spec r) (Complete-Descends spec table fetch answers down _ done chain)
  where
    Q : Walk → Bool → Bool → Type 0
    Q w a b = a ≡ false → b ≡ false → Complete spec table fetch answers down w

    last :
        (frontier : List Tagged) (w : Walk)
        → OpenOnly spec table fetch answers down (suc (depth_limit spec)) frontier w
        → Q w (depth_is_exact spec && not (is_nil frontier)) false
    last [] w ok _ _ =
        Open_only-Complete spec table fetch answers down _ [] w ok
          (unfold frontier_keys distinct_from in refl)
    last (t ∷ ts) w ok e _ =
        absurd (let cut : true ≡ false = rw exact at e in (let r : true ≡ false = cut in cc))

    done : Complete spec table fetch answers down (walk_from_seeds spec fetch).walk
    done =
        walk_ind spec fetch (depth_limit spec) (OpenOnly spec table fetch answers down) Q
          (λ depth frontier w ok e _ _.
            Open_only-Complete spec table fetch answers down depth frontier w ok e)
          last (λ depth frontier w ok _ _ e. cc)
          (λ depth frontier w ok _ _ room.
            expand-Open_only spec table fetch answers down depth frontier w ok room)
          refl (seeds-Open_only spec table fetch answers down) by_depth by_rows
