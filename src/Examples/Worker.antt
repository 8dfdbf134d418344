-- ===== src/Examples/Worker.antt =====
-- The job queue at concrete inputs.
use ashan_frp.Base.{ℕ, ◌≡◌, refl, true, none, some, [], ◌∷◌}
use ashan_frp.Base.{string_eq}
use ashan_frp.Domain.Job.{Job}
use ashan_frp.Repository.{Table, IsTable}
use ashan_frp.Repository.Memory.{Memory, memory_table, memory_table-IsTable, empty}
use ashan_frp.Worker.Queue.{World, Times, Outcome, failure, choose_job, process_next, polls}
use ashan_frp.Worker.Queue.Execute.{IsEndOf}
use ashan_frp.Worker.Queue.Ended.{returned, execute-IsEndOf}
use ashan_frp.Worker.Queue.{execute}
use ashan_frp.Worker.Works.Synced.{stamp_job}
use ashan_frp.Repository.{IsTable}
use ashan_frp.Repository.Memory.{Memory, memory_table, memory_table-IsTable}
use ashan_frp.Worker.Queue.Lifecycle.{Follows, polls-Lifecycle}
use ashan_frp.Worker.Queue.Retry.{retry_wait-stuck}

abbrev sync_job : Job
sync_job = record {
  id = "job_1";
  kind = "website_mapping.sync";
  target_type = "website_mappings";
  target_id = "web_1";
  channel = "subject:website-mappings";
  status = "queued";
  attempt_count = 1;
  max_attempts = 5;
  title = "Sync website mapping";
  payload_json = "{}";
  result_json = "";
  retryable = true;
  next_retry_at = none;
  started_at = none;
  completed_at = none;
  error_message = "";
  created_by = "acc_1";
  created_at = 0;
  updated_at = 0;
}

abbrev jobs : Table (Memory Job) Job
jobs = memory_table (λ j. j.id)

abbrev unstamped : ℕ → ℕ → Job → Job
unstamped c u j = j

jobs-IsTable : IsTable jobs (λ j. j.id) unstamped
jobs-IsTable = memory_table-IsTable (λ j. j.id) unstamped (λ j. (0, 0, refl))

-- Work that fails, and touches no job.
abbrev offline : Job → Memory Job → Memory Job × Outcome
offline j s = (s, failure "offline")

abbrev keep_all : ℕ → Memory Job → Memory Job
keep_all cutoff s = s

abbrev times : Times
times = record { started = 10; done = 20; retry = 30 }

queue : World (Memory Job)
unfolding memory_table
queue = record {
  db = (jobs.save sync_job empty).0;
  events = [];
  audit_retention_days = 30;
  last_audit_cleanup = none;
}

after_failure : World (Memory Job)
unfolding process_next queue
after_failure = process_next jobs offline keep_all times queue

abbrev waiting : Job
waiting = record sync_job {
  status = "retry_wait";
  attempt_count = 2;
  started_at = some 10;
  completed_at = some 20;
  next_retry_at = some 60000000030;
  error_message = "offline";
}

failed_once : jobs.row "job_1" after_failure.db ≡ some waiting
unfolding after_failure memory_table choose_job
failed_once = refl

queued_once : jobs.row "job_1" queue.db ≡ some sync_job
unfolding queue memory_table
queued_once = refl

polls-Lifecycle_example :
    Follows jobs offline keep_all unstamped jobs-IsTable "job_1" sync_job
      (polls jobs offline keep_all (times ∷ times ∷ []) queue).db
polls-Lifecycle_example =
    polls-Lifecycle jobs offline keep_all unstamped jobs-IsTable (λ c s k. refl) (λ c s k. refl)
      (times ∷ times ∷ []) queue "job_1" sync_job queued_once

retry_wait-stuck_example :
    jobs.row "job_1" (polls jobs offline keep_all (times ∷ times ∷ []) after_failure).db
    ≡ some waiting
retry_wait-stuck_example =
    retry_wait-stuck jobs offline keep_all unstamped jobs-IsTable "job_1" waiting refl (λ c s. refl)
      (λ c s. refl) (times ∷ times ∷ []) after_failure failed_once

law : IsTable jobs (λ j. j.id) stamp_job
law = memory_table-IsTable (λ j. j.id) stamp_job (λ j. (j.created_at, j.updated_at, refl))

saved : (j : Job) (s : Memory Job) → (jobs.save j s).1 ≡ true
unfolding memory_table
saved j s = refl

execute-IsEndOf_example :
    (e : Job) × (jobs.row "job_1" (execute jobs offline keep_all times sync_job queue).db ≡ some e)
    × IsEndOf times sync_job (returned jobs offline keep_all law saved times sync_job queue) e
execute-IsEndOf_example = execute-IsEndOf jobs offline keep_all law saved times sync_job queue
