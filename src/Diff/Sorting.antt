-- ===== src/Diff/Sorting.antt =====
-- The order in which a schema's resources are compared. (diff_engine.ts)
use zero_datafabric.Common.{ℕ, ◌≤◌, inl, inr, Bool-cases, List, [], ◌∷◌, arith, leb, All}
use zero_datafabric.Diff.Model.{Resource}
use zero_datafabric.Diff.Compare.{rank, insert_resource, sort_resources}

abbrev pub Ordered : List Resource → Type 0
Ordered [] = Unit
Ordered (r ∷ rs) = All (λ s. rank r.kind ≤ rank s.kind) rs × Ordered rs

All-weaken :
    (a b : ℕ) (rs : List Resource)
    → a ≤ b
    → All (λ s. b ≤ rank s.kind) rs
    → All (λ s. a ≤ rank s.kind) rs
All-weaken a b [] le h = tt
All-weaken a b (r ∷ rs) le (p, h) = (omega arith, All-weaken a b rs le h)

insert_above :
    (a : ℕ) (r : Resource) (rs : List Resource)
    → a ≤ rank r.kind
    → All (λ s. a ≤ rank s.kind) rs
    → All (λ s. a ≤ rank s.kind) (insert_resource r rs)
unfolding insert_resource
insert_above a r [] le h = (le, tt)
insert_above a r (s ∷ rs) le (p, h) = elim (Bool-cases (leb (rank r.kind) (rank s.kind))) [
  | inl e ↦ rw e (le, (p, h))
  | inr e ↦ rw e (p, insert_above a r rs le h)
]

insert-Ordered : (r : Resource) (rs : List Resource) → Ordered rs → Ordered (insert_resource r rs)
unfolding insert_resource
insert-Ordered r [] h = (tt, tt)
insert-Ordered r (s ∷ rs) (p, h) = elim (Bool-cases (leb (rank r.kind) (rank s.kind))) [
  | inl e ↦
      let le : rank r.kind ≤ rank s.kind = ground arith in
      rw e ((le, All-weaken (rank r.kind) (rank s.kind) rs le p), (p, h))
  | inr e ↦ rw e (insert_above (rank s.kind) r rs (ground arith) p, insert-Ordered r rs h)
]

pub sort_resources-Ordered : (rs : List Resource) → Ordered (sort_resources rs)
unfolding sort_resources
sort_resources-Ordered [] = tt
sort_resources-Ordered (r ∷ rs) = insert-Ordered r (sort_resources rs) (sort_resources-Ordered rs)
