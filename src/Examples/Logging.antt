-- ===== src/Examples/Logging.antt =====
-- The log at concrete inputs.
use ashan_frp.Base.{◌≤◌, String, Bool, List, [], ◌∷◌, select, ◌≡◌, false, some}
use ashan_frp.Base.Int.{pos}
use ashan_frp.Observability.Cleanup.Newest.{IsCleaned, cleanup-IsCleaned}
use ashan_frp.Observability.Rotation.{LogConfig, with_defaults}
use ashan_frp.Observability.Cleanup.{
  LogFile, cleanup, cutoff, remaining, newest_first, insert, is_before,
}
use ashan_frp.Base.{◌≡◌, ◌≤◌, refl, true, false, [], ◌∷◌, arith}
use ashan_frp.Base.Int.{pos}
use ashan_frp.Base.Text.{to_lower, contains}
use ashan_frp.Observability.{redact_attr, kept, names_secret, names_token, names_credential}
use ashan_frp.Observability.Rotation.{
  LogConfig, Writer, opened, not_opened, IsBounded, write, write_all, rotate, max_bytes,
  write-IsBounded, write_all-lost,
}

kept_run : redact_attr "Token_Mask" ≡ kept
unfolding redact_attr names_secret names_token names_credential to_lower contains
kept_run = refl

abbrev one_mb : LogConfig
one_mb = record { max_size_mb = pos 1; max_backups = pos 2; retention_days = pos 30 }

abbrev writer : Writer
writer = record { size = 700; file = 700; is_open = true }

write-IsBounded_example : IsBounded one_mb 500 (write one_mb 500 500 opened writer)
write-IsBounded_example = write-IsBounded one_mb 500 500 opened writer refl (omega arith)

five_fits : 5 ≤ max_bytes one_mb
unfolding max_bytes
five_fits = omega arith

write_all-lost_example :
    write_all one_mb ((5, opened) ∷ (5, opened) ∷ []) (rotate not_opened writer).0
    ≡ (rotate not_opened writer).0
write_all-lost_example =
    write_all-lost one_mb ((5, opened) ∷ (5, opened) ∷ []) writer (five_fits, (five_fits, tt))

abbrev alphabetical : String → String → Bool
alphabetical a b = false

abbrev old_files : List LogFile
old_files =
    record { path = "app.log.1"; modified = some 50 }
    ∷ record { path = "app.log.2"; modified = some 70 }
    ∷ record { path = "app.log.3"; modified = some 90 }
    ∷ record { path = "app.log.4"; modified = some 80 }
    ∷ []

abbrev two_backups : LogConfig
two_backups = record { max_size_mb = pos 0; max_backups = pos 2; retention_days = pos 1 }

cleanup-IsCleaned_example :
    IsCleaned 2 1 86400000000060 old_files
      (cleanup alphabetical two_backups 86400000000060 old_files)
cleanup-IsCleaned_example =
    cleanup-IsCleaned alphabetical two_backups 86400000000060 old_files
      ((50, refl), ((70, refl), ((90, refl), ((80, refl), tt))))

-- Of the two newest files the older one goes as well, where it is too old.
cleanup_run :
    cleanup alphabetical two_backups 86400000000085 old_files
    ≡ record { path = "app.log.3"; modified = some 90 } ∷ []
unfolding cleanup cutoff remaining newest_first insert is_before with_defaults select
cleanup_run = refl
