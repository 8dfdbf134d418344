-- ===== src/Worker/Queue.antt =====
-- frp-backend/internal/worker/runner.go: the job queue, `processNext` and `execute`, over any work
-- that a job can ask for. The work returns the result of the job or the text of its error.
pub mod Execute
pub mod Ended
pub mod Retry
pub mod Lifecycle
use ashan_frp.Base.{
  ℕ, suc, ◌+◌, ◌-◌, ◌*◌, ltb, leb, nat_beq, String, ◌<>◌, Bool, true, false, ◌&&◌, ◌||◌, not,
  Option, none, some, List, [], ◌∷◌, ◌++◌,
}
use ashan_frp.Base.{◌==◌, string_eq, if◌then◌else◌}
use ashan_frp.Domain.Job.{
  Job, JobSummary, job_status_queued, job_status_running, job_status_retry_wait,
  job_status_succeeded, job_status_failed,
}
use ashan_frp.Repository.{Table}
use ashan_frp.Repository.Jobs.{list_jobs, with_status}

-- An event of the stream, with the `Retryable` of its `APIError` where it has one.
pub record Event : Type 0 where
  pub channel : String
  pub kind : String
  pub level : String
  pub message : String
  pub job : JobSummary
  pub error_retryable : Option Bool

pub data Outcome : Type 0 where
  result : String → Outcome
  failure : String → Outcome

-- The database, the events published so far, the newest first, and the worker's own fields.
pub record World (S : Type 0) : Type 0 where
  pub db : S
  pub events : List Event
  pub audit_retention_days : ℕ
  pub last_audit_cleanup : Option ℕ

-- `time.Now()` at the start, at the end and at the plan of a retry.
pub record Times : Type 0 where
  pub started : ℕ
  pub done : ℕ
  pub retry : ℕ

abbrev pub thirty_seconds : ℕ
thirty_seconds = 30000000000

unfoldable pub job_summary : Job → JobSummary
job_summary j = record {
  id = j.id;
  status = j.status;
  channel = "subject:job:" <> j.id;
  kind = j.kind;
  target_type = j.target_type;
  target_id = j.target_id;
}

unfoldable pub job_event : Job → String → String → String → Option Bool → Event
unfolding job_summary
job_event j kind level message error_retryable = record {
  channel = "subject:job:" <> j.id;
  kind = kind;
  level = level;
  message = message;
  job = job_summary j;
  error_retryable = error_retryable;
}

-- The job as `execute` first writes it.
unfoldable pub begin_job : ℕ → Job → Job
begin_job now j = record j {
  status = job_status_running;
  started_at = some now;
  error_message = "";
}

abbrev pub prepend : List Event → List Event → List Event
prepend new old = new ++ old

abbrev pub may_retry : Job → Bool
may_retry j = j.retryable && ltb j.attempt_count j.max_attempts

-- The job as `execute` writes it after an error.
unfoldable pub fail_job : Times → String → Job → Job
fail_job t message j =
    let failed = record j {
      status = job_status_failed;
      error_message = message;
      completed_at = some t.done;
      next_retry_at = none;
    } in
    if may_retry j
    then record failed {
      attempt_count = suc j.attempt_count;
      status = job_status_retry_wait;
      next_retry_at = some (t.retry + suc j.attempt_count * thirty_seconds);
    }
    else failed

unfoldable pub succeed_job : Times → String → Job → Job
succeed_job t json j = record j {
  status = job_status_succeeded;
  result_json = json;
  completed_at = some t.done;
  next_retry_at = none;
}

-- The job at the end of `execute`.
unfoldable pub end_job : Times → Outcome → Job → Job
unfolding fail_job succeed_job
end_job t (result json) j = succeed_job t json j
end_job t (failure message) j = fail_job t message j

-- The events at the end of `execute`, the newest first.
unfoldable pub end_events : Job → Outcome → List Event
unfolding job_event
end_events j (result _) = job_event j "job.succeeded" "info" j.title none ∷ []
end_events j (failure message) =
    let failed = job_event j "job.failed" "error" message (some (may_retry j)) in
    if j.status == job_status_retry_wait
    then job_event j "job.retry_scheduled" "warn" "job scheduled for retry" none ∷ failed ∷ []
    else failed ∷ []

-- The last entry of the list, if there is one.
unfoldable pub last_job : List Job → Option Job
last_job [] = none
last_job (j ∷ []) = some j
last_job (j ∷ k ∷ js) = last_job (k ∷ js)

-- `next_retry_at != nil && time.Now().Before(*next_retry_at)`.
abbrev pub is_early : ℕ → Option ℕ → Bool
is_early now none = false
is_early now (some at) = ltb now at

-- The first failed job that has a retry left whose time has come.
unfoldable pub due_job : ℕ → List Job → Option Job
due_job now [] = none
due_job now (j ∷ js) =
    let rest = due_job now js in
    if not j.retryable || leb j.max_attempts j.attempt_count
    then rest
    else if is_early now j.next_retry_at
    then rest
    else some j

-- What `processNext` executes, from the queued and the failed jobs of the database; none is an
-- error of the query.
unfoldable pub choose_job : ℕ → Option (List Job) → Option (List Job) → Option Job
unfolding last_job due_job
choose_job now (some (j ∷ js)) failed = last_job (j ∷ js)
choose_job now _ none = none
choose_job now _ (some failed) = due_job now failed

abbrev pub one_hour : ℕ
one_hour = 3600000000000

abbrev pub one_day : ℕ
one_day = 86400000000000

-- The last cleanup is no hour ago.
abbrev pub is_recent : ℕ → Option ℕ → Bool
is_recent now none = false
is_recent now (some at) = ltb (now - at) one_hour

-- The table of the jobs, what a job does, and `DeleteAuditLogsBefore`.
module _ {S : Type 0} (T : Table S Job) (work : Job → S → S × Outcome) (purge : ℕ → S → S) where
  abbrev pub publish : List Event → World S → World S
  publish events w = record w { events = prepend events w.events }

  -- `UpdateJob`, with its error ignored.
  abbrev pub update_job : Job → World S → World S
  update_job j w = record w { db = (T.save j w.db).0 }

  unfoldable pub execute : Times → Job → World S → World S
  unfolding begin_job end_job end_events job_event
  execute t job w =
      let begun = begin_job t.started job in
      let announced =
        publish (job_event begun "job.started" "info" begun.title none ∷ []) (update_job begun w) in
      let (db, outcome) = work begun announced.db in
      let ended = end_job t outcome begun in
      publish (end_events ended outcome) (update_job ended (record announced { db = db }))

  execute_chosen : Times → Option Job → World S → World S
  unfolding execute
  execute_chosen t none w = w
  execute_chosen t (some j) w = execute t j w

  unfoldable pub cleanup_audit_logs : ℕ → World S → World S
  cleanup_audit_logs now w =
      if nat_beq w.audit_retention_days 0 || is_recent now w.last_audit_cleanup
      then w
      else record w {
        last_audit_cleanup = some now;
        db = purge (now - w.audit_retention_days * one_day) w.db;
      }

  -- `processNext`.
  unfoldable pub process_next : Times → World S → World S
  unfolding execute_chosen list_jobs cleanup_audit_logs
  process_next t w =
      let cleaned = cleanup_audit_logs t.started w in
      execute_chosen t
        (choose_job t.started (list_jobs T (with_status job_status_queued) cleaned.db)
          (list_jobs T (with_status job_status_failed) cleaned.db))
        cleaned

  -- The rounds of the ticker in `loop`.
  unfoldable pub polls : List Times → World S → World S
  polls [] w = w
  polls (t ∷ ts) w = polls ts (process_next t w)
