-- ===== src/Jobs/Attempts.antt =====
-- How often a job is tried, and that the queue drains. (copy_job_engine.ts)
use zero_datafabric.Common.{
  ℕ, suc, ◌+◌, ◌-◌, ◌≤◌, ◌<◌, ◌≡◌, inl, inr, Bool-cases, Option-cases, String, true, List, [], ◌∷◌,
  arith, ltb, All,
}
use zero_datafabric.Jobs.{
  Status, queued, running, paused, completed, failed, Job, is_queued, claimed, next_job, Execution,
  result, copy_paused, thrown, recorded, process_one,
}
use zero_datafabric.Jobs.Queue.{DistinctIds, replace_next, outcome, finish-claim}

-- A job has had no more attempts than it may, and a queued one has some left.
abbrev pub room : Status → ℕ
room queued = 1
room _ = 0

abbrev pub Budget : List Job → Type 0
Budget = All (λ j. j.attempts + room j.status ≤ j.max_attempts)

-- The attempts that the queued jobs have left.
abbrev pub left_of : Status → ℕ → ℕ
left_of queued n = n
left_of _ n = 0

unfoldable pub attempts_left : List Job → ℕ
attempts_left [] = 0
attempts_left (j ∷ js) = left_of j.status (j.max_attempts - j.attempts) + attempts_left js

room-queued : (s : Status) (n m : ℕ) → is_queued s ≡ true → n + room s ≤ m → n < m
room-queued queued n m h le = omega arith
room-queued running n m h le = cc
room-queued paused n m h le = cc
room-queued completed n m h le = cc
room-queued failed n m h le = cc

module _ (worker : String) (now : ℕ) where
  outcome-room :
      (e : Execution) (j : Job)
      → j.attempts < j.max_attempts
      → (outcome worker now e j).attempts + room (outcome worker now e j).status
        ≤ (outcome worker now e j).max_attempts
  unfolding recorded claimed
  outcome-room (result []) j h = omega arith
  outcome-room (result (x ∷ xs)) j h = omega arith
  outcome-room copy_paused j h = omega arith
  outcome-room (thrown message) j h = elim (Bool-cases (ltb (suc j.attempts) j.max_attempts)) [
    | inl e ↦ rw e (ground arith)
    | inr e ↦ rw e (omega arith)
  ]

  replace-Budget :
      (e : Execution) (jobs : List Job)
      → Budget jobs
      → Budget (replace_next (outcome worker now e) jobs)
  unfolding replace_next
  replace-Budget e [] h = tt
  replace-Budget e (j ∷ js) (p, h) = elim (Bool-cases (is_queued j.status)) [
    | inl q ↦ rw q (outcome-room e j (room-queued j.status j.attempts j.max_attempts q p), h)
    | inr q ↦ rw q (p, replace-Budget e js h)
  ]

  -- One call of the worker, on a table whose rows have distinct ids: no job has been tried more
  -- often than it may, and none that is queued has been tried that often, after the call if before.
  pub process_one-Budget :
      (e : Execution) (jobs : List Job)
      → DistinctIds jobs
      → Budget jobs
      → Budget (process_one worker now e jobs)
  unfolding process_one
  process_one-Budget e jobs d h = elim (Option-cases (next_job jobs)) [
    | inl empty ↦ rw empty h
    | inr (j, next) ↦ rw (next, finish-claim worker now e jobs j d next) (replace-Budget e jobs h)
  ]

-- Calls of the worker one after the other, each at its time and with its execution's end.
unfoldable pub process_calls : String → List (ℕ × Execution) → List Job → List Job
process_calls worker [] jobs = jobs
process_calls worker ((now, e) ∷ calls) jobs =
    process_calls worker calls (process_one worker now e jobs)
