-- ===== src/Observability/Rotation.antt =====
-- frp-backend/internal/observability/logger.go: the rotating writer. A write has the number of bytes
-- that the file takes of it; the sizes stay below 2^63, so that they do not wrap.
use ashan_frp.Base.{
  ℕ, nat_beq, ◌+◌, ◌*◌, ◌≤◌, ltb, ◌≡◌, refl, Bool, true, false, ap, ◌∙◌, arith, List, [], ◌∷◌,
}
use ashan_frp.Base.{◌⊎◌, if◌then◌else◌, Bool-cases, inl, inr}
use ashan_frp.Base.Int.{ℤ, pos, negsuc, is_positive}

pub record LogConfig : Type 0 where
  pub max_size_mb : ℤ
  pub max_backups : ℤ
  pub retention_days : ℤ

abbrev pub or_default : ℤ → ℕ → ℤ
or_default n d = if is_positive n then n else pos d

-- The defaults of `newRotatingWriter`.
unfoldable pub with_defaults : LogConfig → LogConfig
with_defaults c = record {
  max_size_mb = or_default c.max_size_mb 20;
  max_backups = or_default c.max_backups 20;
  retention_days = or_default c.retention_days 30;
}

abbrev pub limit_of : ℤ → ℕ
limit_of (pos n) = n * 1048576
limit_of (negsuc n) = 0

-- `cfg.MaxSizeMB` in bytes.
unfoldable pub max_bytes : LogConfig → ℕ
max_bytes c = limit_of c.max_size_mb

-- `size`, the bytes of the file that it counts, and whether that file is open.
pub record Writer : Type 0 where
  pub size : ℕ
  pub file : ℕ
  pub is_open : Bool

-- What the system answers to a rotation: the file is not renamed, or is not opened again, or is.
pub data Rename : Type 0 where
  not_renamed : Rename
  not_opened : Rename
  opened : Rename

-- `rotate`: the file is closed first.
unfoldable pub rotate : Rename → Writer → Writer × Bool
rotate not_renamed w = (record w { is_open = false }, false)
rotate not_opened w = (record { size = 0; file = 0; is_open = false }, false)
rotate opened w = (record { size = 0; file = 0; is_open = true }, true)

-- A write of `n` bytes to the file, which fails where the file takes less of them: a closed one
-- refuses it.
unfoldable pub append : ℕ → ℕ → Writer → Writer × Bool
append n taken w =
    if w.is_open
    then (record w { size = w.size + taken; file = w.file + taken }, nat_beq taken n)
    else (w, false)

unfoldable pub append_after : ℕ → ℕ → Writer × Bool → Writer × Bool
unfolding append
append_after n taken (w, false) = (w, false)
append_after n taken (w, true) = append n taken w

-- `Write` of `n` bytes, of which an open file takes some.
unfoldable pub write : LogConfig → ℕ → ℕ → Rename → Writer → Writer × Bool
unfolding append_after rotate
write c n taken rename w =
    append_after n taken (if ltb (max_bytes c) (w.size + n) then rotate rename w else (w, true))

-- The size is that of the file.
abbrev pub IsCounted : Writer → Type 0
IsCounted w = w.size ≡ w.file

abbrev pub IsBounded : LogConfig → ℕ → Writer × Bool → Type 0
IsBounded c n r = IsCounted r.0 × ((r.1 ≡ false) ⊎ (r.0.file ≤ max_bytes c) ⊎ (r.0.file ≤ n))

append-IsBounded :
    (c : LogConfig) (n taken : ℕ) (w : Writer)
    → IsCounted w
    → taken ≤ n
    → w.size + n ≤ max_bytes c
    → IsBounded c n (append n taken w)
unfolding append
append-IsBounded c n taken w counted most fits = elim (Bool-cases w.is_open) [
  | inl up ↦ rw up (omega arith, inr (inl (omega arith)))
  | inr down ↦ rw down (counted, inl refl)
]

rotate-IsBounded :
    (c : LogConfig) (n taken : ℕ) (rename : Rename) (w : Writer)
    → IsCounted w
    → taken ≤ n
    → IsBounded c n (append_after n taken (rotate rename w))
unfolding rotate append_after append
rotate-IsBounded c n taken not_renamed w counted most = (counted, inl refl)
rotate-IsBounded c n taken not_opened w counted most = (refl, inl refl)
rotate-IsBounded c n taken opened w counted most = (refl, inr (inr (omega arith)))

-- The size stays that of the file, whatever a write comes to, and a write that is not refused leaves a
-- file within the limit, or one that holds this write alone.
pub write-IsBounded :
    (c : LogConfig) (n taken : ℕ) (rename : Rename) (w : Writer)
    → IsCounted w
    → taken ≤ n
    → IsBounded c n (write c n taken rename w)
unfolding write append_after
write-IsBounded c n taken rename w counted most =
    elim (Bool-cases (ltb (max_bytes c) (w.size + n))) [
      | inl over ↦ rw over (rotate-IsBounded c n taken rename w counted most)
      | inr within ↦ rw within (append-IsBounded c n taken w counted most (ground (arith, within)))
    ]

-- Some writes, the bytes of each and what the system answers.
unfoldable pub write_all : LogConfig → List (ℕ × Rename) → Writer → Writer
unfolding write
write_all c [] w = w
write_all c ((n, rename) ∷ ns) w = write_all c ns (write c n n rename w).0

-- No write is longer than the file may be.
abbrev pub AllFit : LogConfig → List (ℕ × Rename) → Type 0
AllFit c [] = Unit
AllFit c ((n, rename) ∷ ns) = (n ≤ max_bytes c) × AllFit c ns

write-lost :
    (c : LogConfig) (n : ℕ) (rename : Rename) (w : Writer)
    → n ≤ max_bytes c
    → (write c n n rename (rotate not_opened w).0).0 ≡ (rotate not_opened w).0
unfolding write append_after append rotate
write-lost c n rename w fits =
    let small : ltb (max_bytes c) (0 + n) ≡ false = ground (arith, fits) in rw small refl

-- Once the file could not be opened again after a rotation, it stays closed and empty through any
-- sequence of writes that fit in a file: each of them is lost, though the file could be opened.
pub write_all-lost :
    (c : LogConfig) (ns : List (ℕ × Rename)) (w : Writer)
    → AllFit c ns
    → write_all c ns (rotate not_opened w).0 ≡ (rotate not_opened w).0
unfolding write_all
write_all-lost c [] w fit = refl
write_all-lost c ((n, rename) ∷ ns) w fit =
    ap (write_all c ns) (write-lost c n rename w fit.0) ∙ write_all-lost c ns w fit.1
