-- ===== src/Worker/Queue/Execute.antt =====
-- How a job ends when it is executed.
use ashan_frp.Base.{
  Bool-cases, inl, inr, refl, ◌+◌, ◌*◌, ◌≤◌, ◌<◌, String, ◌≡◌, true, false, none, some, arith, ◌⊎◌,
}
use ashan_frp.Base.{string_eq}
use ashan_frp.Domain.Job.{Job, job_status_retry_wait, job_status_succeeded, job_status_failed}
use ashan_frp.Worker.Queue.{
  may_retry, Outcome, result, failure, Times, begin_job, end_job, thirty_seconds,
}

-- What `execute` makes of a job: it succeeds with its result; or it fails with a retry left, which
-- counts one attempt more and is planned 30 seconds later for each attempt; or it fails for good.
pub record IsEnded (t : Times) (j : Job) (o : Outcome) (e : Job) : Type 0 where
  pub same :
      (e.id ≡ j.id)
      × (e.kind ≡ j.kind)
      × (e.target_id ≡ j.target_id)
      × (e.max_attempts ≡ j.max_attempts)
      × (e.payload_json ≡ j.payload_json)
  pub completed : e.completed_at ≡ some t.done
  pub succeeded :
      (r : String)
      → o ≡ result r
      → (e.status ≡ job_status_succeeded)
        × (e.result_json ≡ r)
        × (e.error_message ≡ "")
        × (e.next_retry_at ≡ none)
        × (e.attempt_count ≡ j.attempt_count)
  pub waits :
      (m : String)
      → o ≡ failure m
      → j.retryable ≡ true
      → j.attempt_count < j.max_attempts
      → (e.status ≡ job_status_retry_wait)
        × (e.error_message ≡ m)
        × (e.attempt_count ≡ j.attempt_count + 1)
        × (e.next_retry_at ≡ some (t.retry + (j.attempt_count + 1) * thirty_seconds))
  pub gives_up :
      (m : String)
      → o ≡ failure m
      → (j.retryable ≡ false) ⊎ (j.max_attempts ≤ j.attempt_count)
      → (e.status ≡ job_status_failed)
        × (e.error_message ≡ m)
        × (e.attempt_count ≡ j.attempt_count)
        × (e.next_retry_at ≡ none)

pub end_job-IsEnded :
    (t : Times) (o : Outcome) (j : Job) → IsEnded t j o (end_job t o (begin_job t.started j))
unfolding end_job begin_job
end_job-IsEnded t (result r) j = ground arith
end_job-IsEnded t (failure m) j = ground arith

-- The attempts never pass the maximum.
pub end_job_bounded :
    (t : Times) (o : Outcome) (j : Job)
    → j.attempt_count ≤ j.max_attempts
    → (end_job t o (begin_job t.started j)).attempt_count ≤ j.max_attempts
unfolding end_job begin_job
end_job_bounded t (result r) j h = ground arith
end_job_bounded t (failure m) j h = ground arith

-- The end of a job, by what its work returned.
abbrev pub IsEndOf : Times → Job → Outcome → Job → Type 0
IsEndOf t j (result r) e =
    (e.status ≡ job_status_succeeded)
    × (e.result_json ≡ r)
    × (e.error_message ≡ "")
    × (e.next_retry_at ≡ none)
    × (e.attempt_count ≡ j.attempt_count)
IsEndOf t j (failure m) e =
    (e.error_message ≡ m)
    × (((j.retryable ≡ true)
          × (j.attempt_count < j.max_attempts)
          × (e.status ≡ job_status_retry_wait)
          × (e.attempt_count ≡ j.attempt_count + 1)
          × (e.next_retry_at ≡ some (t.retry + (j.attempt_count + 1) * thirty_seconds)))
        ⊎ ((j.retryable ≡ false) ⊎ (j.max_attempts ≤ j.attempt_count))
          × (e.status ≡ job_status_failed)
          × (e.attempt_count ≡ j.attempt_count)
          × (e.next_retry_at ≡ none))

pub end_job-IsEndOf :
    (t : Times) (o : Outcome) (j : Job) → IsEndOf t j o (end_job t o (begin_job t.started j))
unfolding end_job begin_job
end_job-IsEndOf t (result r) j = (refl, refl, refl, refl, refl)
end_job-IsEndOf t (failure m) j = elim (Bool-cases (may_retry j)) [
  | inl again ↦ rw again (ground arith)
  | inr spent ↦ rw spent (ground arith)
]
