-- ===== src/Jobs/Tests.antt =====
-- Runs of the queue. (copy_job_engine.ts)
use zero_datafabric.Common.{ℕ, ◌≡◌, refl, arith, true, false, some, List, [], ◌∷◌}
use zero_datafabric.Jobs.{
  sync, cdc, queued, completed, Job, new_job, enqueue, with_status, with_error, pause_job,
  resume_job, claimed, claim, next_job, Execution, result, copy_paused, thrown, recorded,
  finish_job, process_one, reclaim_stale, beat, should_stop,
}
use zero_datafabric.Jobs.Attempts.{Budget, attempts_left, process_one-Budget}
use zero_datafabric.Jobs.Races.{
  claim-drops_pause, find_job, status_at, reclaimed_rows, completed_by_b, failed_late,
  finish_job-reopens,
}

abbrev first : Job
first = new_job 1 "t" sync "crm"

abbrev second : Job
second = new_job 2 "t" cdc "crm"

abbrev jobs : List Job
jobs = first ∷ second ∷ []

-- All of the queue, for tests.
queueing : Unit {0}
unfolding enqueue pause_job resume_job claimed claim next_job recorded finish_job process_one
    reclaim_stale beat should_stop find_job attempts_left
queueing = tt

retried :
    next_job (process_one "w" 5 (thrown "lost") jobs)
    ≡ some (with_error (some "lost") (with_status queued (claimed "w" 5 first)))
unfolding queueing
retried = refl

paused_run : should_stop 1 (pause_job "t" 1 (claim "w" 5 jobs)) ≡ true
unfolding queueing
paused_run = refl

reclaimed_run :
    next_job (reclaim_stale 60 100 (claim "w" 5 (first ∷ [])))
    ≡ some (with_status queued (claimed "w" 5 first))
unfolding queueing
reclaimed_run = refl

process_one-Budget_example : Budget (process_one "w" 5 (thrown "lost") jobs)
process_one-Budget_example =
    process_one-Budget "w" 5 (thrown "lost") jobs ((refl, tt), (tt, tt))
      (omega arith, (omega arith, tt))

abbrev six_calls : List (ℕ × Execution)
six_calls =
    (5, thrown "lost")
    ∷ (6, thrown "lost")
    ∷ (7, thrown "lost")
    ∷ (8, result [])
    ∷ (9, copy_paused)
    ∷ (10, result [])
    ∷ []

claim-drops_pause_example : should_stop 1 (claim "w" 5 (pause_job "t" 1 jobs)) ≡ false
unfolding next_job
claim-drops_pause_example = claim-drops_pause "w" 5 "t" jobs first ((refl, tt), (tt, tt)) refl refl

finish_job-reopens_example :
    (next_job (reclaimed_rows first (second ∷ []) "a" "b" "late" 5 60 100)
      ≡ some (with_status queued (claimed "a" 5 first)))
    × (status_at 1 (completed_by_b first (second ∷ []) "a" "b" "late" 5 60 100) ≡ some completed)
    × (status_at 1 (failed_late first (second ∷ []) "a" "b" "late" 5 60 100) ≡ some queued)
finish_job-reopens_example =
    finish_job-reopens first (second ∷ []) "a" "b" "late" 5 60 100 refl (omega arith) (omega arith)
