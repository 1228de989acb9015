-- ===== src/Jobs/Queue.antt =====
-- The row that one call of the worker takes, and what it leaves of it. (copy_job_engine.ts)
use zero_datafabric.Common.{
  ℕ, ◌≡◌, refl, ap, subst, inl, inr, Bool-cases, String, true, false, none, some, List, [], ◌∷◌,
  arith, if◌then◌else◌, ◌==◌, All,
}
use zero_datafabric.Jobs.{
  Job, is_queued, update_where, claimed, claim, next_job, Execution, recorded, finish_job,
}

abbrev pub DistinctIds : List Job → Type 0
DistinctIds [] = Unit
DistinctIds (j ∷ js) = All (λ k. (k.id == j.id) ≡ false) js × DistinctIds js

-- The jobs with the first queued one changed.
unfoldable pub replace_next : (Job → Job) → List Job → List Job
replace_next f [] = []
replace_next f (j ∷ js) = if is_queued j.status then f j ∷ js else j ∷ replace_next f js

untouched :
    (id : ℕ) (f : Job → Job) (js : List Job)
    → All (λ k. (k.id == id) ≡ false) js
    → update_where (λ k. k.id == id) f js ≡ js
untouched id f [] h = refl
untouched id f (k ∷ js) (p, h) = rw (p, untouched id f js h) refl

pub same_id : (n : ℕ) → (n == n) ≡ true
same_id n = ground arith

pub next_elsewhere :
    (js : List Job) (j : Job) (id : ℕ)
    → next_job js ≡ some j
    → All (λ k. (k.id == id) ≡ false) js
    → (j.id == id) ≡ false
unfolding next_job
next_elsewhere [] j id e h = cc
next_elsewhere (k ∷ js) j id e (p, h) = elim (Bool-cases (is_queued k.status)) [
  | inl q ↦
      let same : some k ≡ some j = rw q at e in
      let own : k ≡ j = ap (λ o. elim o [ none ↦ k | some x ↦ x ]) same in
      subst (λ x. (x.id == id) ≡ false) own p
  | inr q ↦ next_elsewhere js j id (rw q at e) h
]

pub flip_id : (a b : ℕ) → (a == b) ≡ false → (b == a) ≡ false
flip_id a b h = ground arith

module _ (worker : String) (now : ℕ) (e : Execution) where
  -- What one call of the worker makes of the row that it takes.
  abbrev pub outcome : Job → Job
  outcome j = recorded (claimed worker now j) e (claimed worker now j)

  pub finish-claim :
      (jobs : List Job) (j : Job)
      → DistinctIds jobs
      → next_job jobs ≡ some j
      → finish_job (claimed worker now j) e (claim worker now jobs) ≡ replace_next outcome jobs
  unfolding finish_job claim claimed next_job replace_next
  finish-claim [] j d h = cc
  finish-claim (k ∷ js) j (p, d) h = elim (Bool-cases (is_queued k.status)) [
    | inl q ↦
        let same : some k ≡ some j = rw q at h in
        let own : k ≡ j = ap (λ o. elim o [ none ↦ k | some x ↦ x ]) same in
        subst
          (λ x.
            update_where (λ y. y.id == x.id) (recorded (claimed worker now x) e)
              (claim worker now (k ∷ js))
            ≡ replace_next outcome (k ∷ js))
          own (rw (q, same_id k.id, untouched k.id (recorded (claimed worker now k) e) js p) refl)
    | inr q ↦
        let there = next_elsewhere js j k.id (rw q at h) p in
        rw (q, flip_id j.id k.id there, finish-claim js j d (rw q at h)) refl
  ]
