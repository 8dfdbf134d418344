-- ===== src/Observability/Cleanup/Newest.antt =====
-- What a cleanup of the log files leaves: the newest of them.
use mathlib.Core.List.Perm
use mathlib.Core.List.{Perm}
use ashan_frp.Base.{
  ℕ, zero, suc, ◌+◌, ◌-◌, ◌*◌, ◌≤◌, ltb, leb, String, ◌≡◌, refl, ap, Bool, true, false, some, List,
  [], ◌∷◌, length, take, All, All-map, arith, Bool-cases, inl, inr, some_inj, sym, ◌∙◌, select,
}
use ashan_frp.Base.Int.{pos_part}
use ashan_frp.Observability.Rotation.{LogConfig, with_defaults, or_default}
use ashan_frp.Observability.Cleanup.{
  LogFile, is_before, insert, newest_first, is_recent, remaining, cutoff, cleanup,
}

-- The file can be examined, and was changed at this time.
abbrev pub IsFrom : LogFile → ℕ → Type 0
IsFrom f t = f.modified ≡ some t

abbrev pub IsDated : LogFile → Type 0
IsDated f = (t : ℕ) × IsFrom f t

-- The second file is not newer than the first.
abbrev pub IsNewer : LogFile → LogFile → Type 0
IsNewer f g = (t u : ℕ) → IsFrom f t → IsFrom g u → u ≤ t

abbrev pub IsNewestFirst : List LogFile → Type 0
IsNewestFirst [] = Unit
IsNewestFirst (f ∷ fs) = All (IsNewer f) fs × IsNewestFirst fs

module _ (str_ltb : String → String → Bool) where
  before-dated :
      (f g : LogFile) (t u : ℕ) → IsFrom f t → IsFrom g u → is_before str_ltb f g ≡ ltb u t
  unfolding is_before
  before-dated f g t u at_f at_g = rw (at_f, at_g) refl

  insert-All :
      (P : LogFile → Type 0) (f : LogFile) (gs : List LogFile)
      → P f
      → All P gs
      → All P (insert str_ltb f gs)
  unfolding insert
  insert-All P f [] own h = (own, tt)
  insert-All P f (g ∷ gs) own h = elim (Bool-cases (is_before str_ltb g f)) [
    | inl first ↦ rw first (h.0, insert-All P f gs own h.1)
    | inr last ↦ rw last (own, h)
  ]

  insert-Perm : (f : LogFile) (gs : List LogFile) → Perm (insert str_ltb f gs) (f ∷ gs)
  unfolding insert
  insert-Perm f [] = Perm.refl (f ∷ [])
  insert-Perm f (g ∷ gs) = elim (Bool-cases (is_before str_ltb g f)) [
    | inl first ↦ rw first (Perm.trans (Perm.cons g (insert-Perm f gs)) (Perm.swap f g gs))
    | inr last ↦ rw last (Perm.refl (f ∷ g ∷ gs))
  ]

  newest_first-Perm : (fs : List LogFile) → Perm (newest_first str_ltb fs) fs
  unfolding newest_first
  newest_first-Perm [] = Perm.refl []
  newest_first-Perm (f ∷ fs) =
      Perm.trans (insert-Perm f (newest_first str_ltb fs)) (Perm.cons f (newest_first-Perm fs))

  newest_first-All :
      (P : LogFile → Type 0) (fs : List LogFile) → All P fs → All P (newest_first str_ltb fs)
  unfolding newest_first
  newest_first-All P [] h = tt
  newest_first-All P (f ∷ fs) h = insert-All P f _ h.0 (newest_first-All P fs h.1)

  before-IsNewer :
      (f g : LogFile) → IsDated f → IsDated g → is_before str_ltb f g ≡ true → IsNewer f g
  before-IsNewer f g (t, at_f) (u, at_g) first t' u' here there =
      let e : ltb u t ≡ true = cc (before-dated f g t u at_f at_g) in
      let a : t ≡ t' = some_inj (sym at_f ∙ here) in
      let b : u ≡ u' = some_inj (sym at_g ∙ there) in ground (arith, e, a, b)

  other-IsNewer :
      (f g : LogFile) → IsDated f → IsDated g → is_before str_ltb g f ≡ false → IsNewer f g
  other-IsNewer f g (t, at_f) (u, at_g) first t' u' here there =
      let e : ltb t u ≡ false = cc (before-dated g f u t at_g at_f) in
      let a : t ≡ t' = some_inj (sym at_f ∙ here) in
      let b : u ≡ u' = some_inj (sym at_g ∙ there) in ground (arith, e, a, b)

  IsNewer-trans : (f g h : LogFile) → IsDated g → IsNewer f g → IsNewer g h → IsNewer f h
  IsNewer-trans f g h (v, at) a b t u here there =
      let low = a t v here at in let high = b v u at there in omega (arith, low, high)

  insert-IsNewestFirst :
      (f : LogFile) (gs : List LogFile)
      → IsDated f
      → All IsDated gs
      → IsNewestFirst gs
      → IsNewestFirst (insert str_ltb f gs)
  unfolding insert
  insert-IsNewestFirst f [] own dated h = (tt, tt)
  insert-IsNewestFirst f (g ∷ gs) own dated h = elim (Bool-cases (is_before str_ltb g f)) [
    | inl first ↦ rw first (
      insert-All (IsNewer g) f gs (before-IsNewer g f dated.0 own first) h.0,
      insert-IsNewestFirst f gs own dated.1 h.1,
    )
    | inr last ↦
        let near = other-IsNewer f g own dated.0 last in
        rw last ((near, All-map (λ x. IsNewer-trans f g x dated.0 near) gs h.0), h)
  ]

  newest_first-IsNewestFirst :
      (fs : List LogFile) → All IsDated fs → IsNewestFirst (newest_first str_ltb fs)
  unfolding newest_first
  newest_first-IsNewestFirst [] dated = tt
  newest_first-IsNewestFirst (f ∷ fs) dated =
      insert-IsNewestFirst f (newest_first str_ltb fs) dated.0 (newest_first-All IsDated fs dated.1)
        (newest_first-IsNewestFirst fs dated.1)

nothing_past :
    (max time i : ℕ) (fs : List LogFile)
    → All IsDated fs
    → leb max i ≡ true
    → remaining max time i fs ≡ []
unfolding remaining
nothing_past max time i [] dated past = refl
nothing_past max time i (f ∷ fs) ((t, at), dated) past =
    rw (at, past) (nothing_past max time (suc i) fs dated (ground (arith, past)))

remaining-select :
    (max time i n : ℕ) (fs : List LogFile)
    → All IsDated fs
    → max ≡ i + n
    → remaining max time i fs ≡ select (is_recent time) (take n fs)
unfolding remaining select
remaining-select max time i zero fs dated e = nothing_past max time i fs dated (ground (arith, e))
remaining-select max time i (suc n) [] dated e = refl
remaining-select max time i (suc n) (f ∷ fs) ((t, at), dated) e =
    let inside : leb max i ≡ false = ground (arith, e) in
    let rest = remaining-select max time (suc i) n fs dated (omega (arith, e)) in
    elim (Bool-cases (ltb t time)) [
      | inl old ↦ rw (at, inside, old) rest
      | inr new ↦
          rw (at, inside, new) (ap (λ xs. record { path = f.path; modified = some t } ∷ xs) rest)
    ]

length-select-take :
    (p : LogFile → Bool) (n : ℕ) (fs : List LogFile) → length (select p (take n fs)) ≤ n
unfolding select
length-select-take p zero fs = omega arith
length-select-take p (suc n) [] = omega arith
length-select-take p (suc n) (f ∷ fs) = elim (Bool-cases (p f)) [
  | inl kept ↦ rw kept (omega (arith, length-select-take p n fs))
  | inr gone ↦ rw gone (omega (arith, length-select-take p n fs))
]

-- What a cleanup at a time leaves of some files: put in an order in which a file never comes before a
-- newer one, it is those of the first `backups` of them that were changed in the last `days` days.
abbrev pub IsCleaned : (backups days now : ℕ) → List LogFile → List LogFile → Type 0
IsCleaned backups days now files left =
    (sorted : List LogFile) × Perm sorted files
    × IsNewestFirst sorted
    × (left ≡ select (is_recent (now - days * 86400000000000)) (take backups sorted))
    × (length left ≤ backups)

-- Where every file can be examined, a cleanup of the log files leaves, of the newest of them, as many
-- as the configuration keeps or 20, those that were changed in the last days, as many as it says or
-- 30; so there are no more than that many files.
pub cleanup-IsCleaned :
    (str_ltb : String → String → Bool) (config : LogConfig) (now : ℕ) (files : List LogFile)
    → All IsDated files
    → IsCleaned
        (pos_part (or_default config.max_backups 20))
        (pos_part (or_default config.retention_days 30))
        now
        files
        (cleanup str_ltb config now files)
unfolding cleanup cutoff with_defaults
cleanup-IsCleaned str_ltb config now files dated =
    let backups = pos_part (or_default config.max_backups 20) in
    let time = cutoff config now in
    let sorted = newest_first str_ltb files in
    let same =
      remaining-select backups time 0 backups sorted (newest_first-All str_ltb IsDated files dated)
        (omega arith) in
    (
      sorted,
      newest_first-Perm str_ltb files,
      newest_first-IsNewestFirst str_ltb files dated,
      same,
      rw same (length-select-take (is_recent time) backups sorted),
    )
