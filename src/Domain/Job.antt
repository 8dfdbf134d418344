-- ===== src/Domain/Job.antt =====
-- frp-backend/internal/domain/types.go: the job row and its statuses.
use ashan_frp.Base.{ℕ, String, Bool, Option}

abbrev pub job_status_queued : String
job_status_queued = "queued"

abbrev pub job_status_running : String
job_status_running = "running"

abbrev pub job_status_retry_wait : String
job_status_retry_wait = "retry_wait"

abbrev pub job_status_succeeded : String
job_status_succeeded = "succeeded"

abbrev pub job_status_failed : String
job_status_failed = "failed"

-- The columns; the fields with `gorm:"-"` are never set.
pub record Job : Type 0 where
  pub id : String
  pub kind : String
  pub target_type : String
  pub target_id : String
  pub channel : String
  pub status : String
  pub attempt_count : ℕ
  pub max_attempts : ℕ
  pub title : String
  pub payload_json : String
  pub result_json : String
  pub retryable : Bool
  pub next_retry_at : Option ℕ
  pub started_at : Option ℕ
  pub completed_at : Option ℕ
  pub error_message : String
  pub created_by : String
  pub created_at : ℕ
  pub updated_at : ℕ

pub record JobSummary : Type 0 where
  pub id : String
  pub status : String
  pub channel : String
  pub kind : String
  pub target_type : String
  pub target_id : String
