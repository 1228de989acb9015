-- ===== src/Diff/Order.antt =====
-- In which order the entries of a schema's resources come. (diff_engine.ts)
use zero_datafabric.Common.{ℕ, ◌≤◌, ◌≡◌, Bool, List, [], ◌∷◌, ◌++◌, arith, All}
use zero_datafabric.Diff.Model.{
  ResourceType, enum, sequence, function, procedure, table, view, materialized_view, unknown,
  Resource, Catalog, Diff, Target,
}
use zero_datafabric.Diff.Resources.{process_resource_diff}
use zero_datafabric.Diff.Compare.{rank, process_all, sort_resources}
use zero_datafabric.Diff.Sorting.{Ordered, sort_resources-Ordered}
use zero_datafabric.Diff.Entries.{stage, stage_of, is_lacking, Entry, process_resource_diff-Entry}

-- No entry comes before one of an earlier stage.
abbrev pub Staged : List Diff → Type 0
Staged [] = Unit
Staged (d ∷ ds) = All (λ e. stage d.action ≤ stage e.action) ds × Staged ds

abbrev AtLeast : ℕ → List Diff → Type 0
AtLeast n = All (λ e. n ≤ stage e.action)

AtLeast-append : (n : ℕ) (xs ys : List Diff) → AtLeast n xs → AtLeast n ys → AtLeast n (xs ++ ys)
AtLeast-append n [] ys h k = k
AtLeast-append n (x ∷ xs) ys (p, h) k = (p, AtLeast-append n xs ys h k)

AtLeast-weaken : (m n : ℕ) (xs : List Diff) → m ≤ n → AtLeast n xs → AtLeast m xs
AtLeast-weaken m n [] le h = tt
AtLeast-weaken m n (x ∷ xs) le (p, h) = (omega arith, AtLeast-weaken m n xs le h)

Entry-AtLeast :
    (n : ℕ) (l : Bool) (m : ℕ) (xs : List Diff) → m ≤ n → All (Entry n l) xs → AtLeast m xs
Entry-AtLeast n l m [] le h = tt
Entry-AtLeast n l m (x ∷ xs) le (p, h) =
    (let same = p.staged in omega arith, Entry-AtLeast n l m xs le h)

-- The entries of one stage before entries of that stage and later ones.
Staged-append :
    (n : ℕ) (l : Bool) (xs ys : List Diff)
    → All (Entry n l) xs
    → AtLeast n ys
    → Staged ys
    → Staged (xs ++ ys)
Staged-append n l [] ys h k s = s
Staged-append n l (x ∷ xs) ys (p, h) k s =
    let m = stage x.action in
    let same : m ≡ n = p.staged in
    (
      AtLeast-append m xs ys (Entry-AtLeast n l m xs (omega arith) h)
          (AtLeast-weaken m n ys (omega arith) k),
      Staged-append n l xs ys h k s,
    )

stage_of_mono : (a b : ResourceType) → rank a ≤ rank b → stage_of a ≤ stage_of b
stage_of_mono enum b h = ground arith
stage_of_mono sequence b h = ground arith
stage_of_mono function b h = ground arith
stage_of_mono procedure b h = ground arith
stage_of_mono table b h = ground arith
stage_of_mono view b h = ground arith
stage_of_mono materialized_view b h = ground arith
stage_of_mono unknown b h = ground arith

module _ (cat : Catalog) (t : Target) where
  process_all-AtLeast :
      (k : ResourceType) (rs : List Resource)
      → All (λ s. rank k ≤ rank s.kind) rs
      → AtLeast (stage_of k) (process_all cat t rs)
  unfolding process_all
  process_all-AtLeast k [] h = tt
  process_all-AtLeast k (r ∷ rs) (p, h) =
      AtLeast-append (stage_of k) (process_resource_diff cat t r) (process_all cat t rs)
        (Entry-AtLeast (stage_of r.kind) (is_lacking t.caps r) (stage_of k)
          (process_resource_diff cat t r) (stage_of_mono k r.kind p)
          (process_resource_diff-Entry cat t r))
        (process_all-AtLeast k rs h)

  process_all-Staged : (rs : List Resource) → Ordered rs → Staged (process_all cat t rs)
  unfolding process_all
  process_all-Staged [] h = tt
  process_all-Staged (r ∷ rs) (p, h) =
      Staged-append (stage_of r.kind) (is_lacking t.caps r) (process_resource_diff cat t r)
        (process_all cat t rs) (process_resource_diff-Entry cat t r)
        (process_all-AtLeast r.kind rs p) (process_all-Staged rs h)

  -- In whatever order a schema declares its resources, the entries for them come in the order of
  -- their dependencies: enums, sequences, functions and procedures, tables and columns, views.
  pub process_all-sort_resources :
      (rs : List Resource) → Staged (process_all cat t (sort_resources rs))
  process_all-sort_resources rs = process_all-Staged (sort_resources rs) (sort_resources-Ordered rs)
