-- ===== src/Observability/Cleanup.antt =====
-- frp-backend/internal/observability/logger.go: which old log files `cleanup` removes. The order of
-- texts is a parameter; a day has 24 hours.
pub mod Newest
use ashan_frp.Base.{
  ℕ, suc, ◌-◌, ◌*◌, ltb, leb, String, ◌≡◌, refl, ap, Bool, true, false, not, Option, none, some,
  List, [], ◌∷◌, length, select, take, arith, Bool-cases, inl, inr,
}
use ashan_frp.Base.{if◌then◌else◌}
use ashan_frp.Base.Int.{pos_part}
use ashan_frp.Observability.Rotation.{LogConfig, with_defaults}

-- A file, with the time of its last change where `os.Stat` gives one.
pub record LogFile : Type 0 where
  pub path : String
  pub modified : Option ℕ

module _ (str_ltb : String → String → Bool) where
  abbrev by_time : String → String → Option ℕ → Option ℕ → Bool
  by_time a b (some t) (some u) = ltb u t
  by_time a b none u = str_ltb b a
  by_time a b (some t) none = str_ltb b a

  -- The comparison of the sort: the newer file comes first.
  unfoldable pub is_before : LogFile → LogFile → Bool
  is_before f g = by_time f.path g.path f.modified g.modified

  unfoldable pub insert : LogFile → List LogFile → List LogFile
  unfolding is_before
  insert f [] = f ∷ []
  insert f (g ∷ gs) = let rest = insert f gs in if is_before g f then g ∷ rest else f ∷ g ∷ gs

  -- `sort.Slice`: one of the orders that it may give, where some files are of the same time or have
  -- none.
  unfoldable pub newest_first : List LogFile → List LogFile
  unfolding insert
  newest_first [] = []
  newest_first (f ∷ fs) = insert f (newest_first fs)

abbrev is_recent_time : ℕ → Option ℕ → Bool
is_recent_time cutoff none = false
is_recent_time cutoff (some t) = not (ltb t cutoff)

-- The file is known to be no older than the cutoff.
abbrev pub is_recent : ℕ → LogFile → Bool
is_recent cutoff f = is_recent_time cutoff f.modified

-- A file that cannot be examined is left alone.
abbrev keep_unless : ℕ → ℕ → ℕ → LogFile → Option ℕ → List LogFile → List LogFile
keep_unless max cutoff i f none rest = f ∷ rest
keep_unless max cutoff i f (some t) rest =
    if leb max i then rest else if ltb t cutoff then rest else f ∷ rest

-- The loop over the sorted files, from the one at `i`: those that are left.
unfoldable pub remaining : ℕ → ℕ → ℕ → List LogFile → List LogFile
remaining max cutoff i [] = []
remaining max cutoff i (f ∷ fs) =
    keep_unless max cutoff i f f.modified (remaining max cutoff (suc i) fs)

abbrev one_day : ℕ
one_day = 86400000000000

-- The time before which a file is too old.
unfoldable pub cutoff : LogConfig → ℕ → ℕ
unfolding with_defaults
cutoff config now = now - pos_part (with_defaults config).retention_days * one_day

-- `cleanup` at a time: the files that are left.
unfoldable pub cleanup : (String → String → Bool) → LogConfig → ℕ → List LogFile → List LogFile
unfolding with_defaults remaining newest_first cutoff
cleanup str_ltb config now files =
    remaining (pos_part (with_defaults config).max_backups) (cutoff config now) 0
      (newest_first str_ltb files)
