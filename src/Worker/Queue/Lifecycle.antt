-- ===== src/Worker/Queue/Lifecycle.antt =====
-- The life cycle of a job, which the worker follows.
use ashan_frp.Base.{
  ℕ, leb, ◌<◌, String, ◌≡◌, ◌≢◌, refl, sym, ap, ◌∙◌, true, Option, none, some, List, [], ◌∷◌, All,
  arith, ◌⊎◌, inl, inr, eq_iff, some_inj, Bool-cases, ◌||◌, not, nat_beq,
}
use ashan_frp.Base.{string_eq, ◌==◌}
use mathlib.Core.Path.{subst}
use ashan_frp.Domain.Job.{Job, job_status_queued, job_status_failed}
use ashan_frp.Repository.{Table, IsTable}
use ashan_frp.Repository.Jobs.{matches, newer, with_status, list_jobs}
use ashan_frp.Worker.Queue.Execute.{end_job-IsEnded}
use ashan_frp.Worker.Queue.Retry.{AllFound, last_job-All, due_job-All}
use ashan_frp.Worker.Queue.{
  World, Times, Outcome, begin_job, end_job, choose_job, due_job, execute, execute_chosen,
  process_next, polls, cleanup_audit_logs, is_recent, is_early,
}

-- A job that may be run: it is queued, or it has failed and has an attempt left.
abbrev pub IsDue : Job → Type 0
IsDue j =
    (j.status ≡ job_status_queued)
    ⊎ (j.status ≡ job_status_failed) × (j.retryable ≡ true) × (j.attempt_count < j.max_attempts)

-- What may become of the row of a job: it stays; it is marked as running and its end is never
-- written; or it ends as its work did, on the database that the work was given. The database sets
-- times of its own.
pub data Lifecycle {S : Type 0} (work : Job → S → S × Outcome) (stamp : ℕ → ℕ → Job → Job)
    : Job → Job → Type 0 where
  stays : (j : Job) → Lifecycle work stamp j j
  starts :
      (j k : Job) (now created updated : ℕ)
      → IsDue j
      → k ≡ stamp created updated (begin_job now j)
      → Lifecycle work stamp j k
  ends :
      (j k : Job) (t : Times) (s : S) (created updated : ℕ)
      → IsDue j
      → k
        ≡ stamp created updated
            (end_job t (work (begin_job t.started j) s).1 (begin_job t.started j))
      → Lifecycle work stamp j k
  goes_on :
      (i j k : Job) → Lifecycle work stamp i j → Lifecycle work stamp j k → Lifecycle work stamp i k

-- The jobs of the answer to a query have this status and stand in the table.
abbrev HasStatus : {S : Type 0} → Table S Job → S → String → Job → Type 0
HasStatus T s status j = (j.status ≡ status) × (T.row j.id s ≡ some j)

abbrev IsDueRow : {S : Type 0} → Table S Job → S → Job → Type 0
IsDueRow T s j = IsDue j × (T.row j.id s ≡ some j)

due_job-left :
    (now : ℕ) (js : List Job) (c : Job)
    → due_job now js ≡ some c
    → (c.retryable ≡ true) × (c.attempt_count < c.max_attempts)
unfolding due_job
due_job-left now [] c e = absurd (cc)
due_job-left now (j ∷ js) c e =
    elim (Bool-cases (not j.retryable || leb j.max_attempts j.attempt_count)) [
      | inl spent ↦ due_job-left now js c (rw spent at e)
      | inr left ↦ elim (Bool-cases (is_early now j.next_retry_at)) [
        | inl early ↦ due_job-left now js c (rw (left, early) at e)
        | inr late ↦
            subst (λ x. (x.retryable ≡ true) × (x.attempt_count < x.max_attempts))
              (some_inj (rw (left, late) at e)) (ground (arith, left))
      ]
    ]

module _ {S : Type 0} (T : Table S Job) (work : Job → S → S × Outcome) (purge : ℕ → S → S)
    (stamp : ℕ → ℕ → Job → Job) (L : IsTable T (λ j. j.id) stamp) where
  due-IsDueRow :
      (now : ℕ) (s : S) (js : List Job) (c : Job)
      → All (HasStatus T s job_status_failed) js
      → due_job now js ≡ some c
      → IsDueRow T s c
  due-IsDueRow now s js c h e =
      let (status, at) = due_job-All (HasStatus T s job_status_failed) now js c h e in
      let (retryable, left) = due_job-left now js c e in (inr (status, retryable, left), at)

  choose_job-IsDueRow :
      (now : ℕ) (s : S) (queued failed : Option (List Job)) (c : Job)
      → AllFound (HasStatus T s job_status_queued) queued
      → AllFound (HasStatus T s job_status_failed) failed
      → choose_job now queued failed ≡ some c
      → IsDueRow T s c
  unfolding choose_job
  choose_job-IsDueRow now s (some (j ∷ js)) failed c h k e =
      let (status, at) = last_job-All (HasStatus T s job_status_queued) (j ∷ js) c h e in
      (inl status, at)
  choose_job-IsDueRow now s (some []) (some js) c h k e = due-IsDueRow now s js c k e
  choose_job-IsDueRow now s none (some js) c h k e = due-IsDueRow now s js c k e
  choose_job-IsDueRow now s (some []) none c h k e = absurd (cc)
  choose_job-IsDueRow now s none none c h k e = absurd (cc)

  with_status-All :
      (status : String) (s : S) (js : List Job)
      → ◌≢◌ {A = String} status ""
      → All (λ j. (matches (with_status status) j ≡ true) × (T.row j.id s ≡ some j)) js
      → All (HasStatus T s status) js
  with_status-All status s [] n h = tt
  with_status-All status s (j ∷ js) n (here, rest) = (
    (ground (arith, n, eq_iff j.status status, eq_iff status "", here.0), here.1),
    with_status-All status s js n rest,
  )

  listed :
      (status : String) (s : S) (o : Option (List Job))
      → ◌≢◌ {A = String} status ""
      → T.find (matches (with_status status)) newer (some 100) s ≡ o
      → AllFound (HasStatus T s status) o
  listed status s none n e = tt
  listed status s (some js) n e = with_status-All status s js n (L.find_sound _ _ _ s js e)

  -- The row of a saved job is what was written, or as it was.
  row-save :
      (r : Job) (s : S)
      → ((c : ℕ) × (u : ℕ) × (T.row r.id (T.save r s).0 ≡ some (stamp c u r)))
        ⊎ (T.row r.id (T.save r s).0 ≡ T.row r.id s)
  row-save r s = elim (Bool-cases (T.save r s).1) [
    | inl done ↦ inl (L.save_stored r s done)
    | inr failed ↦ inr (L.save_failed r s r.id failed)
  ]

  abbrev pub Follows : String → Job → S → Type 0
  Follows k j s = (r : Job) × (T.row k s ≡ some r) × Lifecycle work stamp j r

  begun-Follows :
      (now : ℕ) (j : Job) (s : S) → IsDueRow T s j → Follows j.id j (T.save (begin_job now j) s).0
  unfolding begin_job
  begun-Follows now j s (due, at) = elim (row-save (begin_job now j) s) [
    | inl (c, u, e) ↦ (stamp c u (begin_job now j), e, starts j _ now c u due refl)
    | inr e ↦ (j, e ∙ at, stays j)
  ]

  same_id : (t : Times) (o : Outcome) (j : Job) → (end_job t o (begin_job t.started j)).id ≡ j.id
  unfolding begin_job
  same_id t o j = (end_job-IsEnded t o j).same.0

  ended-Follows :
      (t : Times) (j : Job) (s0 s : S)
      → IsDue j
      → Follows j.id j s
      → let o = (work (begin_job t.started j) s0).1 in
        Follows j.id j (T.save (end_job t o (begin_job t.started j)) s).0
  ended-Follows t j s0 s due (r, at, so_far) =
      let o = (work (begin_job t.started j) s0).1 in
      let ended = end_job t o (begin_job t.started j) in
      let same = same_id t o j in
      elim (row-save ended s) [
        | inl (c, u, e) ↦ (
          stamp c u ended,
          ap (λ k. T.row k (T.save ended s).0) (sym same) ∙ e,
          ends j _ t s0 c u due refl,
        )
        | inr e ↦ (
          r,
          ap (λ k. T.row k (T.save ended s).0) (sym same) ∙ e ∙ ap (λ k. T.row k s) same ∙ at,
          so_far,
        )
      ]

  module _ (work_keeps : (c : Job) (s : S) (k : String) → T.row k (work c s).0 ≡ T.row k s)
      (purge_keeps : (now : ℕ) (s : S) (k : String) → T.row k (purge now s) ≡ T.row k s) where
    execute-Follows :
        (t : Times) (j : Job) (w : World S)
        → IsDueRow T w.db j
        → Follows j.id j (execute T work purge t j w).db
    unfolding execute
    execute-Follows t j w (due, at) =
        let begun = begin_job t.started j in
        let s1 = (T.save begun w.db).0 in
        let (r, there, so_far) = begun-Follows t.started j w.db (due, at) in
        ended-Follows t j s1 (work begun s1).0 due (r, work_keeps begun s1 j.id ∙ there, so_far)

    row-execute_other :
        (t : Times) (c : Job) (w : World S) (k : String)
        → k ≢ c.id
        → T.row k (execute T work purge t c w).db ≡ T.row k w.db
    unfolding execute begin_job
    row-execute_other t c w k h =
        L.save_other _ _ k (λ e. h (e ∙ same_id t _ c)) ∙ work_keeps _ _ k ∙ L.save_other _ _ k h

    chosen-Follows :
        (t : Times) (o : Option Job) (w : World S) (k : String) (j : Job)
        → T.row k w.db ≡ some j
        → ((c : Job) → o ≡ some c → IsDueRow T w.db c)
        → Follows k j (execute_chosen T work purge t o w).db
    unfolding execute_chosen
    chosen-Follows t none w k j at due = (j, at, stays j)
    chosen-Follows t (some c) w k j at due = elim (Bool-cases (k == c.id)) [
      | inr other ↦ (
        j,
        row-execute_other t c w k (λ e. ground (other, arith, eq_iff k c.id, e)) ∙ at,
        stays j,
      )
      | inl same ↦
          let e = (eq_iff k c.id).0 same in
          let own : c ≡ j = some_inj (sym (due c refl).1 ∙ ap (λ x. T.row x w.db) (sym e) ∙ at) in
          let (r, there, life) = execute-Follows t c w (due c refl) in
          (
            r,
            ap (λ x. T.row x (execute T work purge t c w).db) e ∙ there,
            subst (λ x. Lifecycle work stamp x r) own life,
          )
    ]

    row-cleanup :
        (now : ℕ) (w : World S) (k : String)
        → T.row k (cleanup_audit_logs T work purge now w).db ≡ T.row k w.db
    unfolding cleanup_audit_logs
    row-cleanup now w k =
        elim (Bool-cases (nat_beq w.audit_retention_days 0 || is_recent now w.last_audit_cleanup)) [
          | inl e ↦ rw (e, cleanup_audit_logs) refl
          | inr e ↦ rw (e, cleanup_audit_logs) (purge_keeps _ w.db k)
        ]

    process_next-Follows :
        (t : Times) (w : World S) (k : String) (j : Job)
        → T.row k w.db ≡ some j
        → Follows k j (process_next T work purge t w).db
    unfolding process_next list_jobs
    process_next-Follows t w k j at =
        let cleaned = cleanup_audit_logs T work purge t.started w in
        chosen-Follows t _ cleaned k j (row-cleanup t.started w k ∙ at) (λ c e.
          choose_job-IsDueRow t.started cleaned.db _ _ c
            (listed job_status_queued cleaned.db _ (ground (arith, eq_iff job_status_queued ""))
              refl)
            (listed job_status_failed cleaned.db _ (ground (arith, eq_iff job_status_failed ""))
              refl)
            e)

    -- Through any number of polls, the row of every job follows the life cycle: only a job that is
    -- queued, or has failed with an attempt left, is run, and its row is then marked as running, or ended
    -- as its work returned on some database, a success or a failure, or is as it was where the writes
    -- fail. No job is lost, and every other row
    -- stays. The assumptions are those on the table, and that the work of jobs and the cleanup of the
    -- audit log leave its rows alone.
    pub polls-Lifecycle :
        (ts : List Times) (w : World S) (k : String) (j : Job)
        → T.row k w.db ≡ some j
        → Follows k j (polls T work purge ts w).db
    unfolding polls
    polls-Lifecycle [] w k j at = (j, at, stays j)
    polls-Lifecycle (t ∷ ts) w k j at =
        let (q, there, first) = process_next-Follows t w k j at in
        let (r, here, rest) = polls-Lifecycle ts (process_next T work purge t w) k q there in
        (r, here, goes_on j q r first rest)
