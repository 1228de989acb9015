-- ===== src/Jobs.antt =====
-- backend/src/modules/jobs/copy_job_engine.ts: the queue of copy jobs. The table is a list of rows
-- in the order of creation; each statement of the code is one function on it, and a transition of
-- the system is one of them. `now` is the time of the statement, in milliseconds.
pub mod Queue
pub mod Attempts
pub mod Races
mod Tests
use zero_datafabric.Common.{
  ℕ, zero, suc, ◌+◌, String, Bool, true, false, not, ◌&&◌, ◌||◌, Option, none, some, List, [], ◌∷◌,
  ◌++◌, map, if◌then◌else◌, ◌==◌, ltb, any, text_eq, concat,
}

pub data CopyJobKind : Type 0 where
  sync cdc replicate restore : CopyJobKind

pub data Status : Type 0 where
  queued running paused completed failed : Status

pub data Control : Type 0 where
  run pause : Control

-- A row of `copy_jobs`, without the progress counters.
pub record Job : Type 0 where
  pub id : ℕ
  pub tenant_id : String
  pub kind : CopyJobKind
  pub job_ref : String
  pub status : Status
  pub control : Control
  pub attempts : ℕ
  pub max_attempts : ℕ
  pub claimed_by : Option String
  pub error : Option String
  pub heartbeat_at : Option ℕ

abbrev pub kind_eq : CopyJobKind → CopyJobKind → Bool
kind_eq sync sync = true
kind_eq cdc cdc = true
kind_eq replicate replicate = true
kind_eq restore restore = true
kind_eq _ _ = false

-- `status IN ('QUEUED','RUNNING','PAUSED')`
abbrev pub is_active : Status → Bool
is_active queued = true
is_active running = true
is_active paused = true
is_active _ = false

abbrev pub is_queued : Status → Bool
is_queued queued = true
is_queued _ = false

abbrev pub is_running : Status → Bool
is_running running = true
is_running _ = false

-- `tenant_id=$1 AND kind=$2 AND job_ref=$3 AND status IN (...)`
abbrev pub is_same_job : String → CopyJobKind → String → Job → Bool
is_same_job tenant kind ref j =
    text_eq j.tenant_id tenant && kind_eq j.kind kind && text_eq j.job_ref ref && is_active j.status

abbrev pub new_job : ℕ → String → CopyJobKind → String → Job
new_job id tenant kind ref = record {
  id = id;
  tenant_id = tenant;
  kind = kind;
  job_ref = ref;
  status = queued;
  control = run;
  attempts = 0;
  max_attempts = 3;
  claimed_by = none;
  error = none;
  heartbeat_at = none;
}

-- `enqueue`; the new row's id is the caller's argument.
unfoldable pub enqueue : ℕ → String → CopyJobKind → String → Bool → List Job → List Job
enqueue id tenant kind ref dedupe jobs =
    if dedupe && any (is_same_job tenant kind ref) jobs
    then jobs
    else jobs ++ new_job id tenant kind ref ∷ []

-- `UPDATE ... SET f WHERE p`
abbrev pub update_where : (Job → Bool) → (Job → Job) → List Job → List Job
update_where p f jobs = map (λ j. if p j then f j else j) jobs

abbrev pub with_status : Status → Job → Job
with_status s j = record {
  id = j.id;
  tenant_id = j.tenant_id;
  kind = j.kind;
  job_ref = j.job_ref;
  status = s;
  control = j.control;
  attempts = j.attempts;
  max_attempts = j.max_attempts;
  claimed_by = j.claimed_by;
  error = j.error;
  heartbeat_at = j.heartbeat_at;
}

abbrev pub with_control : Control → Job → Job
with_control c j = record {
  id = j.id;
  tenant_id = j.tenant_id;
  kind = j.kind;
  job_ref = j.job_ref;
  status = j.status;
  control = c;
  attempts = j.attempts;
  max_attempts = j.max_attempts;
  claimed_by = j.claimed_by;
  error = j.error;
  heartbeat_at = j.heartbeat_at;
}

abbrev pub with_error : Option String → Job → Job
with_error e j = record {
  id = j.id;
  tenant_id = j.tenant_id;
  kind = j.kind;
  job_ref = j.job_ref;
  status = j.status;
  control = j.control;
  attempts = j.attempts;
  max_attempts = j.max_attempts;
  claimed_by = j.claimed_by;
  error = e;
  heartbeat_at = j.heartbeat_at;
}

abbrev pub can_pause : Status → Bool
can_pause running = true
can_pause queued = true
can_pause _ = false

abbrev pub can_resume : Status → Bool
can_resume paused = true
can_resume failed = true
can_resume _ = false

unfoldable pub pause_job : String → ℕ → List Job → List Job
pause_job tenant id jobs =
    update_where (λ j. text_eq j.tenant_id tenant && j.id == id && can_pause j.status)
      (with_control pause) jobs

unfoldable pub resume_job : String → ℕ → List Job → List Job
resume_job tenant id jobs =
    update_where (λ j. text_eq j.tenant_id tenant && j.id == id && can_resume j.status)
      (λ j. with_status queued (with_control run (with_error none j))) jobs

-- What `claim` makes of the row that it takes.
unfoldable pub claimed : String → ℕ → Job → Job
claimed worker now j = record {
  id = j.id;
  tenant_id = j.tenant_id;
  kind = j.kind;
  job_ref = j.job_ref;
  status = running;
  control = run;
  attempts = suc j.attempts;
  max_attempts = j.max_attempts;
  claimed_by = some worker;
  error = j.error;
  heartbeat_at = some now;
}

-- `claim`: the oldest queued row.
unfoldable pub claim : String → ℕ → List Job → List Job
unfolding claimed
claim worker now [] = []
claim worker now (j ∷ js) =
    if is_queued j.status then claimed worker now j ∷ js else j ∷ claim worker now js

-- The job that `claim` returns.
unfoldable pub next_job : List Job → Option Job
next_job [] = none
next_job (j ∷ js) = if is_queued j.status then some j else next_job js

-- `heartbeat_at < now() - stale`, false for a heartbeat that is not set.
abbrev pub is_stale : ℕ → ℕ → Option ℕ → Bool
is_stale stale now none = false
is_stale stale now (some t) = ltb (t + stale) now

unfoldable pub reclaim_stale : ℕ → ℕ → List Job → List Job
reclaim_stale stale now jobs =
    update_where (λ j. is_running j.status && is_stale stale now j.heartbeat_at)
      (with_status queued) jobs

-- How the execution of a claimed job ends: with the errors of its result, paused, or with a throw.
pub data Execution : Type 0 where
  result : List String → Execution
  copy_paused : Execution
  thrown : String → Execution

-- `errors.join('; ')`
unfoldable pub join_errors : String → List String → String
join_errors e [] = e
join_errors e (f ∷ fs) = concat e (concat "; " (join_errors f fs))

-- What `processOne` writes to the row; `at_claim` is the row that the claim returned.
unfoldable pub recorded : Job → Execution → Job → Job
unfolding join_errors
recorded at_claim (result []) j = with_status completed (with_error none j)
recorded at_claim (result (e ∷ es)) j = with_status failed (with_error (some (join_errors e es)) j)
recorded at_claim copy_paused j = with_status paused j
recorded at_claim (thrown message) j =
    with_status (if ltb at_claim.attempts at_claim.max_attempts then queued else failed)
      (with_error (some message) j)

unfoldable pub finish_job : Job → Execution → List Job → List Job
unfolding recorded
finish_job at_claim e jobs = update_where (λ j. j.id == at_claim.id) (recorded at_claim e) jobs

abbrev pub process_claimed : String → ℕ → Execution → List Job → Option Job → List Job
process_claimed worker now e jobs none = jobs
process_claimed worker now e jobs (some j) =
    finish_job (claimed worker now j) e (claim worker now jobs)

-- `processOne`, where no other statement comes between: claim, execute, record.
unfoldable pub process_one : String → ℕ → Execution → List Job → List Job
unfolding finish_job claim next_job
process_one worker now e jobs = process_claimed worker now e jobs (next_job jobs)

-- The progress statement of a running job stamps its row.
unfoldable pub beat : ℕ → ℕ → List Job → List Job
beat id now jobs =
    update_where (λ j. j.id == id)
      (λ j. record {
        id = j.id;
        tenant_id = j.tenant_id;
        kind = j.kind;
        job_ref = j.job_ref;
        status = j.status;
        control = j.control;
        attempts = j.attempts;
        max_attempts = j.max_attempts;
        claimed_by = j.claimed_by;
        error = j.error;
        heartbeat_at = some now;
      })
      jobs

-- `shouldStop`
unfoldable pub should_stop : ℕ → List Job → Bool
should_stop id [] = false
should_stop id (j ∷ js) =
    if j.id == id then elim (j.control) [ pause ↦ true | run ↦ false ] else should_stop id js
