-- ===== src/Worker/Works/Synced.antt =====
-- What the job of a website mapping does.
use ashan_frp.Base.{
  eq_iff, ℕ, String, ◌<>◌, ◌≡◌, refl, sym, ap, ◌∙◌, Bool, true, false, none, some, ◌∷◌,
}
use ashan_frp.Base.{◌==◌, string_eq}
use ashan_frp.Base.Result.{ok}
use ashan_frp.Domain.Job.{Job, job_status_succeeded}
use ashan_frp.Domain.Website.{WebsiteMapping, website_status_synced}
use ashan_frp.Repository.{Table, IsTable, IsApart}
use ashan_frp.Repository.Parts.{part_table}
use ashan_frp.Repository.Websites.{find_website_mapping_by_id}
use ashan_frp.Worker.Queue.{
  World, Times, Outcome, result, job_event, execute, begin_job, end_job, succeed_job,
}
use ashan_frp.Worker.Deprovision.{Outside}
use ashan_frp.Worker.Works.{
  synced, sync_found, sync_website_mapping, Works, work_of, outcome_of, db_part,
}

abbrev pub stamp_website : ℕ → ℕ → WebsiteMapping → WebsiteMapping
stamp_website created updated w = record w { created_at = created; updated_at = updated }

abbrev pub stamp_job : ℕ → ℕ → Job → Job
stamp_job created updated j = record j { created_at = created; updated_at = updated }

abbrev marked : ℕ → WebsiteMapping → WebsiteMapping
marked now m = record m { status = website_status_synced; updated_at = now }

module _ {S Z : Type 0} (websites : Table S WebsiteMapping) (jobs : Table S Job) where
  -- The result of the work, once the row can be saved.
  synced-saved :
      (job : Job) (m : WebsiteMapping) (o : Outside S Z) (r : S × Bool)
      → r.1 ≡ true
      → synced websites job m o r ≡ (
        record o {
          db = r.0;
          events =
              job_event job "website_mapping.synced" "info" "Website mapping synced" none
              ∷ o.events;
        },
        ok ("{\"status\":\"" <> (m.status <> ("\",\"website_mapping_id\":\"" <> (m.id <> "\"}")))),
      )
  unfolding synced
  synced-saved job m o (s, true) e = refl
  synced-saved job m o (s, false) e = cc

  -- The mapping is marked, and is otherwise as it was; the job has succeeded, and the services are as
  -- they were.
  abbrev pub IsSynced : String → String → WebsiteMapping → Outside S Z → Outside S Z → Type 0
  IsSynced target job_id m o o' =
      (r : WebsiteMapping) × (e : Job) × (websites.row target o'.db ≡ some r)
      × (r.status ≡ website_status_synced)
      × (r.panel_website_id ≡ m.panel_website_id)
      × (r.last_synced_at ≡ m.last_synced_at)
      × (jobs.row job_id o'.db ≡ some e)
      × (e.status ≡ job_status_succeeded)
      × (o'.remote ≡ o.remote)

  module _ (law : IsTable websites (λ w. w.id) stamp_website)
      (job_law : IsTable jobs (λ j. j.id) stamp_job) (apart : IsApart jobs websites)
      (saves : (m : WebsiteMapping) (s : S) → (websites.save m s).1 ≡ true)
      (saves_job : (j : Job) (s : S) → (jobs.save j s).1 ≡ true) where
    work_of-synced :
        (works : Works (Outside S Z)) (now : ℕ) (j : Job) (m : WebsiteMapping) (o : Outside S Z)
        → j.kind ≡ "website_mapping.sync"
        → websites.first (λ v. v.id == j.target_id) o.db ≡ some m
        → work_of (record works { sync_website = sync_website_mapping websites now }) j o
          ≡ outcome_of (synced websites j (marked now m) o (websites.save (marked now m) o.db))
    unfolding work_of sync_website_mapping sync_found find_website_mapping_by_id
    work_of-synced works now j m o kind at = rw (kind, at) refl

    -- The end of the job, once its work has saved the mapping.
    ended-IsSynced :
        (t : Times) (now : ℕ) (j : Job) (m : WebsiteMapping) (o : Outside S Z) (s1 : S)
        (x : Outside S Z × Outcome) (o2 : Outside S Z) (json : String)
        → websites.first (λ v. v.id == j.target_id) s1 ≡ some m
        → x ≡ (o2, result json)
        → o2.db ≡ (websites.save (marked now m) s1).0
        → o2.remote ≡ o.remote
        → IsSynced j.target_id j.id m o
            (record x.0 { db = (jobs.save (end_job t x.1 (begin_job t.started j)) x.0.db).0 })
    unfolding end_job begin_job succeed_job
    ended-IsSynced t now j m o s1 x o2 json here e saved same =
        let mapping = marked now m in
        let ended = succeed_job t json (begin_job t.started j) in
        let own =
          (eq_iff m.id j.target_id).0 (law.first_sound (λ v. v.id == j.target_id) s1 m here).0 in
        let (c, u, stored) = law.save_stored mapping s1 (saves mapping s1) in
        let (d, v, job_stored) = job_law.save_stored ended o2.db (saves_job ended o2.db) in
        rw e (
          stamp_website c u mapping,
          stamp_job d v ended,
          apart.save_apart ended o2.db j.target_id
              ∙ ap (websites.row j.target_id) saved
              ∙ ap (λ k. websites.row k (websites.save mapping s1).0) (sym own)
              ∙ stored,
          refl,
          refl,
          refl,
          job_stored,
          refl,
          same,
        )

    -- The job of a website mapping, once the worker executes it and finds the mapping after it has
    -- marked the job as running, marks the mapping as synchronised and has succeeded, although no
    -- service is asked, and neither the identifier of the site nor the time of its last
    -- synchronisation is set. The assumptions are those on the two tables, that their rows can be
    -- saved, and that a change of the jobs leaves the mappings alone.
    pub execute-IsSynced :
        (works : Works (Outside S Z)) (purge : ℕ → Outside S Z → Outside S Z) (now : ℕ) (t : Times)
        (j : Job) (m : WebsiteMapping) (w : World (Outside S Z))
        → j.kind ≡ "website_mapping.sync"
        → websites.first (λ v. v.id == j.target_id) (jobs.save (begin_job t.started j) w.db.db).0
          ≡ some m
        → IsSynced j.target_id j.id m w.db
            (execute
              (part_table db_part jobs)
              (work_of (record works { sync_website = sync_website_mapping websites now }))
              purge
              t
              j
              w).db
    unfolding execute part_table begin_job
    execute-IsSynced works purge now t j m w kind at =
        let begun = begin_job t.started j in
        let s1 = (jobs.save begun w.db.db).0 in
        let started = record w.db { db = s1 } in
        let mapping = marked now m in
        ended-IsSynced t now j m w.db s1 _ _ _ at
          (work_of-synced works now begun m started kind at
            ∙ ap outcome_of
                (synced-saved begun mapping started (websites.save mapping s1) (saves mapping s1)))
          refl refl
