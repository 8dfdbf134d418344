-- ===== src/Worker/Queue/Retry.antt =====
-- Which jobs the queue runs, and what becomes of one that waits for its retry.
use ashan_frp.Base.{
  ℕ, leb, String, ◌≡◌, ◌≢◌, refl, sym, ap, ◌∙◌, true, Option, none, some, List, [], ◌∷◌, All, arith,
  inl, inr, eq_iff, some_inj, Bool-cases, ◌||◌, not, nat_beq,
}
use ashan_frp.Base.{string_eq}
use mathlib.Core.Path.{subst}
use ashan_frp.Domain.Job.{Job, job_status_queued, job_status_failed, job_status_retry_wait}
use ashan_frp.Repository.{Table, IsTable}
use ashan_frp.Repository.Jobs.{matches, newer, with_status, list_jobs}
use ashan_frp.Worker.Queue.Execute.{end_job-IsEnded}
use ashan_frp.Worker.Queue.{
  World, Times, Outcome, begin_job, end_job, choose_job, last_job, due_job, execute, execute_chosen,
  process_next, polls, cleanup_audit_logs, is_recent, is_early,
}

-- Every job of the answer to a query has the property.
abbrev pub AllFound : (Job → Type 0) → Option (List Job) → Type 0
AllFound P none = Unit
AllFound P (some js) = All P js

pub last_job-All :
    (P : Job → Type 0) (js : List Job) (c : Job) → All P js → last_job js ≡ some c → P c
unfolding last_job
last_job-All P [] c h e = cc
last_job-All P (j ∷ []) c h e = subst P (some_inj e) h.0
last_job-All P (j ∷ k ∷ js) c h e = last_job-All P (k ∷ js) c h.1 e

pub due_job-All :
    (P : Job → Type 0) (now : ℕ) (js : List Job) (c : Job)
    → All P js
    → due_job now js ≡ some c
    → P c
unfolding due_job
due_job-All P now [] c h e = cc
due_job-All P now (j ∷ js) c h e =
    elim (Bool-cases (not j.retryable || leb j.max_attempts j.attempt_count)) [
      | inl spent ↦ due_job-All P now js c h.1 (rw spent at e)
      | inr left ↦ elim (Bool-cases (is_early now j.next_retry_at)) [
        | inl early ↦ due_job-All P now js c h.1 (rw (left, early) at e)
        | inr late ↦ subst P (some_inj (rw (left, late) at e)) h.0
      ]
    ]

choose_job-All :
    (P : Job → Type 0) (now : ℕ) (queued failed : Option (List Job)) (c : Job)
    → AllFound P queued
    → AllFound P failed
    → choose_job now queued failed ≡ some c
    → P c
unfolding choose_job
choose_job-All P now (some (j ∷ js)) failed c h k e = last_job-All P (j ∷ js) c h e
choose_job-All P now (some []) (some js) c h k e = due_job-All P now js c k e
choose_job-All P now none (some js) c h k e = due_job-All P now js c k e
choose_job-All P now (some []) none c h k e = cc
choose_job-All P now none none c h k e = cc

queued-ne-retry_wait : ◌≢◌ {A = String} job_status_queued job_status_retry_wait
queued-ne-retry_wait = ground (arith, eq_iff job_status_queued job_status_retry_wait)

queued-ne-empty : ◌≢◌ {A = String} job_status_queued ""
queued-ne-empty = ground (arith, eq_iff job_status_queued "")

failed-ne-retry_wait : ◌≢◌ {A = String} job_status_failed job_status_retry_wait
failed-ne-retry_wait = ground (arith, eq_iff job_status_failed job_status_retry_wait)

failed-ne-empty : ◌≢◌ {A = String} job_status_failed ""
failed-ne-empty = ground (arith, eq_iff job_status_failed "")

-- The job of this row stands in the table, and does not wait for a retry.
abbrev IsRunnable : {S : Type 0} → Table S Job → S → Job → Type 0
IsRunnable T s j = (j.status ≢ job_status_retry_wait) × (T.row j.id s ≡ some j)

module _ {S : Type 0} (T : Table S Job) (work : Job → S → S × Outcome) (purge : ℕ → S → S)
    (stamp : ℕ → ℕ → Job → Job) (L : IsTable T (λ j. j.id) stamp) where
  weaken :
      (status : String) (s : S) (js : List Job)
      → ◌≢◌ {A = String} status job_status_retry_wait
      → ◌≢◌ {A = String} status ""
      → All (λ j. (matches (with_status status) j ≡ true) × (T.row j.id s ≡ some j)) js
      → All (IsRunnable T s) js
  weaken status s [] n m h = tt
  weaken status s (j ∷ js) n m h = (
    ((λ e. ground (arith, eq_iff j.status status, eq_iff status "", h.0)), h.0.1),
    weaken status s js n m h.1,
  )

  found :
      (status : String) (s : S)
      → ◌≢◌ {A = String} status job_status_retry_wait
      → ◌≢◌ {A = String} status ""
      → AllFound (IsRunnable T s) (list_jobs T (with_status status) s)
  unfolding list_jobs
  found status s n m = answer _ refl
    where
      answer :
          (o : Option (List Job))
          → T.find (matches (with_status status)) newer (some 100) s ≡ o
          → AllFound (IsRunnable T s) o
      answer none e = tt
      answer (some js) e = weaken status s js n m (L.find_sound _ _ _ s js e)

  row-execute :
      (t : Times) (c : Job) (w : World S) (k : String)
      → ((j : Job) (s : S) → T.row k (work j s).0 ≡ T.row k s)
      → k ≢ c.id
      → T.row k (execute T work purge t c w).db ≡ T.row k w.db
  unfolding execute begin_job end_job
  row-execute t c w k keeps h =
      L.save_other _ _ k (λ e. h (e ∙ (end_job-IsEnded t _ c).same.0))
      ∙ keeps _ _
      ∙ L.save_other _ _ k h

  module _ (k : String) (j : Job) (waits : j.status ≡ job_status_retry_wait)
      (work_keeps : (c : Job) (s : S) → T.row k (work c s).0 ≡ T.row k s)
      (purge_keeps : (now : ℕ) (s : S) → T.row k (purge now s) ≡ T.row k s) where
    row-execute_chosen :
        (t : Times) (o : Option Job) (w : World S)
        → T.row k w.db ≡ some j
        → ((c : Job) → o ≡ some c → IsRunnable T w.db c)
        → T.row k (execute_chosen T work purge t o w).db ≡ some j
    unfolding execute_chosen
    row-execute_chosen t none w h r = h
    row-execute_chosen t (some c) w h r =
        row-execute t c w k work_keeps
          (λ e. (r c refl).0 (ap (λ (a : Job). a.status) (same_row e) ∙ waits))
        ∙ h
      where
        same_row : k ≡ c.id → c ≡ j
        same_row e = some_inj (sym (r c refl).1 ∙ ap (λ (i : String). T.row i w.db) (sym e) ∙ h)

    row-cleanup_audit_logs :
        (now : ℕ) (w : World S) → T.row k (cleanup_audit_logs T work purge now w).db ≡ T.row k w.db
    unfolding cleanup_audit_logs
    row-cleanup_audit_logs now w =
        elim (Bool-cases (nat_beq w.audit_retention_days 0 || is_recent now w.last_audit_cleanup)) [
          | inl e ↦ rw (e, cleanup_audit_logs) refl
          | inr e ↦ rw (e, cleanup_audit_logs) (purge_keeps _ w.db)
        ]

    row-process_next :
        (t : Times) (w : World S)
        → T.row k w.db ≡ some j
        → T.row k (process_next T work purge t w).db ≡ some j
    unfolding process_next
    row-process_next t w h =
        row-execute_chosen t _ _ (row-cleanup_audit_logs t.started w ∙ h) (λ c e.
          choose_job-All _ t.started _ _ c (found _ _ queued-ne-retry_wait queued-ne-empty)
            (found _ _ failed-ne-retry_wait failed-ne-empty) e)

    -- A job that waits for its retry is never run again: however often and whenever the worker
    -- polls, its row stays what it is, if neither the work of other jobs nor the cleanup of the
    -- audit log writes that row.
    pub retry_wait-stuck :
        (ts : List Times) (w : World S)
        → T.row k w.db ≡ some j
        → T.row k (polls T work purge ts w).db ≡ some j
    unfolding polls
    retry_wait-stuck [] w h = h
    retry_wait-stuck (t ∷ ts) w h = retry_wait-stuck ts _ (row-process_next t w h)
