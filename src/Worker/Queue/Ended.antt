-- ===== src/Worker/Queue/Ended.antt =====
-- What an execution leaves in the row of its job.
use ashan_frp.Base.{ℕ, ◌≡◌, sym, ap, ◌∙◌, true, some}
use ashan_frp.Base.{string_eq}
use ashan_frp.Domain.Job.{Job}
use ashan_frp.Repository.{Table, IsTable}
use ashan_frp.Worker.Queue.{World, Times, Outcome, result, failure, begin_job, end_job, execute}
use ashan_frp.Worker.Queue.Execute.{IsEndOf, end_job-IsEndOf, end_job-IsEnded}
use ashan_frp.Worker.Works.Synced.{stamp_job}

stamped :
    (t : Times) (j : Job) (o : Outcome) (c u : ℕ) (e : Job)
    → IsEndOf t j o e
    → IsEndOf t j o (stamp_job c u e)
stamped t j (result r) c u e h = h
stamped t j (failure m) c u e h = h

module _ {S : Type 0} (T : Table S Job) (work : Job → S → S × Outcome) (purge : ℕ → S → S)
    (law : IsTable T (λ j. j.id) stamp_job)
    (saves : (j : Job) (s : S) → (T.save j s).1 ≡ true) where
  -- What the work of the job returns, on the database in which the job is marked as running.
  abbrev pub returned : Times → Job → World S → Outcome
  returned t j w = (work (begin_job t.started j) (T.save (begin_job t.started j) w.db).0).1

  -- An executed job, where its row can be saved, has succeeded with the result of its work and with no
  -- error; or its work has failed and it waits with one attempt more and a retry planned 30 seconds
  -- later for each attempt, if it is retryable and has an attempt left; or its work has failed and it
  -- has failed for good, with no attempt more, if not. The work is done on the database in which the
  -- job is marked as running. The assumptions are those on the table of the jobs, and that its rows can
  -- be saved.
  pub execute-IsEndOf :
      (t : Times) (j : Job) (w : World S)
      → (e : Job) × (T.row j.id (execute T work purge t j w).db ≡ some e)
        × IsEndOf t j (returned t j w) e
  unfolding execute
  execute-IsEndOf t j w =
      let o = returned t j w in
      let ended = end_job t o (begin_job t.started j) in
      let s = (work (begin_job t.started j) (T.save (begin_job t.started j) w.db).0).0 in
      let (c, u, stored) = law.save_stored ended s (saves ended s) in
      let same = (end_job-IsEnded t o j).same.0 in
      (
        stamp_job c u ended,
        ap (λ k. T.row k (T.save ended s).0) (sym same) ∙ stored,
        stamped t j o c u ended (end_job-IsEndOf t o j),
      )
