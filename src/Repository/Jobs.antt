-- ===== src/Repository/Jobs.antt =====
-- frp-backend/internal/repository/repository.go: the queries on jobs.
use ashan_frp.Base.{ltb, String, Bool, true, ◌&&◌, Option, some, List}
use ashan_frp.Base.{◌==◌, string_eq, if◌then◌else◌}
use ashan_frp.Domain.Job.{Job}
use ashan_frp.Repository.{Table}

pub record JobFilter : Type 0 where
  pub status : String
  pub target_type : String
  pub target_id : String

abbrev pub with_status : String → JobFilter
with_status status = record { status = status; target_type = ""; target_id = "" }

-- A condition that is only added where a value is given.
abbrev pub asked : String → String → Bool
asked value field = if value == "" then true else field == value

abbrev pub matches : JobFilter → Job → Bool
matches f j =
    asked f.status j.status && asked f.target_type j.target_type && asked f.target_id j.target_id

-- `created_at DESC`.
abbrev pub newer : Job → Job → Bool
newer a b = ltb b.created_at a.created_at

module _ {S : Type 0} (T : Table S Job) where
  unfoldable pub list_jobs : JobFilter → S → Option (List Job)
  list_jobs f s = T.find (matches f) newer (some 100) s
