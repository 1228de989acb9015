-- ===== src/Jobs/Races.antt =====
-- Statements that meet on one row: pauses and claims, reclaims and late results.
-- (copy_job_engine.ts)
use zero_datafabric.Common.{
  ℕ, suc, ◌+◌, ◌<◌, ◌≡◌, refl, ap, subst, ◌∙◌, inl, inr, Bool-cases, String, true, false, Option,
  none, some, List, [], ◌∷◌, arith, if◌then◌else◌, ◌==◌, ltb, text_eq, text_eq_iff,
}
use zero_datafabric.Jobs.{
  Status, queued, completed, Job, is_queued, with_status, can_pause, pause_job, claimed, claim,
  next_job, Execution, result, thrown, recorded, finish_job, should_stop, reclaim_stale,
}
use zero_datafabric.Jobs.Queue.{DistinctIds, same_id, flip_id, next_elsewhere}

queued-can_pause : (s : Status) → is_queued s ≡ true → can_pause s ≡ true
queued-can_pause s h = ground arith

-- A pause asked for while a job is still queued is lost when the job is claimed: the worker's probe
-- answers that it may go on.
pub claim-drops_pause :
    (worker : String) (now : ℕ) (tenant : String) (jobs : List Job) (j : Job)
    → DistinctIds jobs
    → next_job jobs ≡ some j
    → j.tenant_id ≡ tenant
    → should_stop j.id (claim worker now (pause_job tenant j.id jobs)) ≡ false
unfolding should_stop claim pause_job claimed next_job
claim-drops_pause worker now tenant [] j d h own = cc
claim-drops_pause worker now tenant (k ∷ js) j (p, d) h own =
    elim (Bool-cases (is_queued k.status)) [
      | inl q ↦
          let same : some k ≡ some j = rw q at h in
          let here : k ≡ j = ap (λ o. elim o [ none ↦ k | some x ↦ x ]) same in
          let mine : text_eq k.tenant_id tenant ≡ true =
            (text_eq_iff k.tenant_id tenant).1 (ap (λ x. x.tenant_id) here ∙ own) in
          subst (λ x. should_stop x.id (claim worker now (pause_job tenant x.id (k ∷ js))) ≡ false)
            here (rw (mine, same_id k.id, queued-can_pause k.status q, q, same_id k.id) refl)
      | inr q ↦
          let there = flip_id j.id k.id (next_elsewhere js j k.id (rw q at h) p) in
          let rest = claim-drops_pause worker now tenant js j d (rw q at h) own in
          elim (Bool-cases (text_eq k.tenant_id tenant)) [
            | inl t ↦ rw (t, there, q, there) rest
            | inr t ↦ rw (t, q, there) rest
          ]
    ]

-- `getRun`, within one tenant.
unfoldable pub find_job : ℕ → List Job → Option Job
find_job id [] = none
find_job id (j ∷ js) = if j.id == id then some j else find_job id js

-- The status of a job.
abbrev pub status_at : ℕ → List Job → Option Status
status_at id jobs = elim (find_job id jobs) [ none ↦ none | some j ↦ some j.status ]

status_at-head :
    (id : ℕ) (x : Job) (xs : List Job) → (x.id == id) ≡ true → status_at id (x ∷ xs) ≡ some x.status
unfolding find_job
status_at-head id x xs h = rw (status_at, find_job, h) refl

finish_job-head :
    (at_claim : Job) (e : Execution) (x : Job) (xs : List Job)
    → (x.id == at_claim.id) ≡ true
    → finish_job at_claim e (x ∷ xs) ≡ recorded at_claim e x ∷ finish_job at_claim e xs
unfolding finish_job
finish_job-head at_claim e x xs h = rw h refl

-- Worker A claims the oldest job, which is queued, and gives no sign for longer than the stale
-- time; the job is reclaimed, worker B claims it and completes it. A then fails, with attempts left
-- at its claim.
module _ (j : Job) (js : List Job) (a b message : String) (start stale later : ℕ) where
  abbrev pub reclaimed_rows : List Job
  reclaimed_rows = reclaim_stale stale later (claim a start (j ∷ js))

  -- The row that B's claim returns.
  abbrev pub claimed_again : Job
  claimed_again = claimed b later (with_status queued (claimed a start j))

  abbrev pub completed_by_b : List Job
  completed_by_b = finish_job claimed_again (result []) (claim b later reclaimed_rows)

  abbrev pub failed_late : List Job
  failed_late = finish_job (claimed a start j) (thrown message) completed_by_b

  taken_again :
      is_queued j.status ≡ true
      → ltb (start + stale) later ≡ true
      → claim b later reclaimed_rows ≡ claimed_again ∷ reclaim_stale stale later js
  unfolding claim claimed reclaim_stale
  taken_again q old = rw (q, old) refl

  completed_row :
      is_queued j.status ≡ true
      → ltb (start + stale) later ≡ true
      → completed_by_b
        ≡ recorded claimed_again (result []) claimed_again
          ∷ finish_job claimed_again (result []) (reclaim_stale stale later js)
  completed_row q old =
      ap (finish_job claimed_again (result [])) (taken_again q old)
      ∙ finish_job-head claimed_again (result []) claimed_again (reclaim_stale stale later js)
          (same_id claimed_again.id)

  -- A worker's late failure reopens a completed job. The oldest job of the table, queued, is
  -- claimed, is reclaimed after the stale time, and is the next job for a second worker; once that
  -- one has completed it, its row says so; and when the first worker fails, with attempts left at
  -- its claim, the row is queued again.
  pub finish_job-reopens :
      is_queued j.status ≡ true
      → start + stale < later
      → suc j.attempts < j.max_attempts
      → (next_job reclaimed_rows ≡ some (with_status queued (claimed a start j)))
        × (status_at j.id completed_by_b ≡ some completed)
        × (status_at j.id failed_late ≡ some queued)
  unfolding claim claimed reclaim_stale next_job recorded
  finish_job-reopens q late left =
      let old : ltb (start + stale) later ≡ true = ground arith in
      let retry : ltb (suc j.attempts) j.max_attempts ≡ true = ground arith in
      let done : Job = recorded claimed_again (result []) claimed_again in
      let rest : List Job = finish_job claimed_again (result []) (reclaim_stale stale later js) in
      let reopened : Job = recorded (claimed a start j) (thrown message) done in
      let row : failed_late ≡ reopened ∷ finish_job (claimed a start j) (thrown message) rest =
        ap (finish_job (claimed a start j) (thrown message)) (completed_row q old)
        ∙ finish_job-head (claimed a start j) (thrown message) done rest (same_id j.id) in
      let again : reopened.status ≡ queued = rw retry refl in
      (
        rw (q, old) refl,
        ap (status_at j.id) (completed_row q old) ∙ status_at-head j.id done rest (same_id j.id),
        ap (status_at j.id) row
            ∙ status_at-head j.id reopened (finish_job (claimed a start j) (thrown message) rest)
                (same_id j.id)
            ∙ ap some again,
      )
