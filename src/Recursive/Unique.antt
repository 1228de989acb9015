-- ===== src/Recursive/Unique.antt =====
-- The guard against cycles: no node is returned twice. (recursive.ts, `seen`)
use zero_datafabric.Common.{
  ℕ, ◌≡◌, true, false, List, [], ◌∷◌, ◌++◌, refl, Value, has, value_eq, has-here, has-there,
  has-absent,
}
use zero_datafabric.Recursive.{
  Spec, Tagged, Walk, LevelFetch, node_key, add_row, expand, fetched_at, run, no_walk, seeds, tag,
  tag_child, depth_limit,
}
use zero_datafabric.Recursive.Induct.{add_seeds_ind, absorb_ind, walk_ind}

-- No row of the list has the key `k`.
abbrev pub Lacks : Spec → Value → List Tagged → Type 0
Lacks spec k [] = Unit
Lacks spec k (t ∷ ts) = (value_eq (node_key spec t.row) k ≡ false) × Lacks spec k ts

-- The rows have pairwise different node keys.
abbrev pub DistinctNodes : Spec → List Tagged → Type 0
DistinctNodes spec [] = Unit
DistinctNodes spec (t ∷ ts) = Lacks spec (node_key spec t.row) ts × DistinctNodes spec ts

-- `seen` holds the key of each row returned so far.
abbrev pub Covers : Spec → List Value → List Tagged → Type 0
Covers spec seen [] = Unit
Covers spec seen (t ∷ ts) = (has (node_key spec t.row) seen ≡ true) × Covers spec seen ts

pub record Guarded (spec : Spec) (w : Walk) : Type 0 where
  pub distinct : DistinctNodes spec w.out
  pub covered : Covers spec w.seen w.out

module _ (spec : Spec) where
  Covers-cons :
      (k : Value) (seen : List Value) (ts : List Tagged)
      → Covers spec seen ts
      → Covers spec (k ∷ seen) ts
  Covers-cons k seen [] h = tt
  Covers-cons k seen (t ∷ ts) (p, h) = (has-there _ k seen p, Covers-cons k seen ts h)

  Covers-append :
      (seen : List Value) (ts : List Tagged) (t : Tagged)
      → Covers spec seen ts
      → has (node_key spec t.row) seen ≡ true
      → Covers spec seen (ts ++ t ∷ [])
  Covers-append seen [] t h p = (p, tt)
  Covers-append seen (u ∷ ts) t (q, h) p = (q, Covers-append seen ts t h p)

  DistinctNodes-append :
      (seen : List Value) (ts : List Tagged) (t : Tagged)
      → DistinctNodes spec ts
      → Covers spec seen ts
      → has (node_key spec t.row) seen ≡ false
      → DistinctNodes spec (ts ++ t ∷ [])
  DistinctNodes-append seen [] t d c n = (tt, tt)
  DistinctNodes-append seen (u ∷ ts) t (l, d) (q, c) n = (
    Lacks-append (node_key spec u.row) ts l
        (has-absent (node_key spec t.row) (node_key spec u.row) seen n q),
    DistinctNodes-append seen ts t d c n,
  )
    where
      Lacks-append :
          (k : Value) (us : List Tagged)
          → Lacks spec k us
          → value_eq (node_key spec t.row) k ≡ false
          → Lacks spec k (us ++ t ∷ [])
      Lacks-append k [] _ e = (e, tt)
      Lacks-append k (v ∷ us) (p, h) e = (p, Lacks-append k us h e)

  -- Adding a row under a key that is not in `seen` keeps the guard.
  Guarded-add :
      (w : Walk) (t : Tagged)
      → Guarded spec w
      → has (node_key spec t.row) w.seen ≡ false
      → Guarded spec (add_row spec w t)
  Guarded-add w t g n = record {
    distinct = DistinctNodes-append w.seen w.out t g.distinct g.covered n;
    covered =
        Covers-append (node_key spec t.row ∷ w.seen) w.out t
          (Covers-cons (node_key spec t.row) w.seen w.out g.covered)
          (has-here (node_key spec t.row) w.seen);
  }

  expand-Guarded :
      (fetch : LevelFetch) (depth : ℕ) (frontier : List Tagged) (w : Walk)
      → Guarded spec w
      → Guarded spec (expand spec fetch depth frontier w).walk
  expand-Guarded fetch depth frontier w g =
      absorb_ind spec depth frontier (λ v _. Guarded spec v) (fetched_at spec fetch depth frontier)
        (λ c v _ _ h new.
          Guarded-add v (tag_child spec depth frontier c) h (unfold tag_child tag in new))
        w [] g

-- No two rows of a result have the same node key, whatever the source returns: a cycle or a
-- second way to a node adds no row.
pub run-DistinctNodes :
    (spec : Spec) (fetch : LevelFetch) → DistinctNodes spec (run spec fetch).rows
unfolding run
run-DistinctNodes spec fetch =
    walk_ind spec fetch (depth_limit spec) (λ _ _ w. Guarded spec w)
      (λ w _ _. DistinctNodes spec w.out) (λ _ _ _ g _. g.distinct) (λ _ _ g. g.distinct)
      (λ depth frontier w g _. (expand-Guarded spec fetch depth frontier w g).distinct)
      (λ depth frontier w g _ _ _. expand-Guarded spec fetch depth frontier w g) refl
      (add_seeds_ind spec (Guarded spec) (seeds spec fetch)
        (λ r w _ g new. Guarded-add spec w r g new) no_walk
        (record { distinct = tt; covered = tt }))
