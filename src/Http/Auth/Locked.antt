-- ===== src/Http/Auth/Locked.antt =====
-- Wrong passwords in a row close an account to every password for a while.
use ashan_frp.Base.{
  ℕ, suc, ◌+◌, ◌<◌, leb, String, ◌≡◌, refl, sym, ap, ◌∙◌, true, false, Option, some, List, [], ◌∷◌,
  length, arith, lt→ltb, if◌then◌else◌, Bool-cases, inl, inr,
}
use mathlib.Core.Path.{subst}
use ashan_frp.Base.{All, ◌++◌}
use ashan_frp.Base.{string_eq}
use ashan_frp.Domain.Account.{Account, AuthToken, AuditLog}
use ashan_frp.Repository.{Table, IsTable, success}
use ashan_frp.Repository.Accounts.{find_account_by_login}
use ashan_frp.Http.Request.{Request}
use ashan_frp.Http.Response.{refuse}
use ashan_frp.Http.Auth.{
  Hashes, LoginTimes, is_locked, is_locked_until, refuse_login, login_as, login, fifteen_minutes,
}
use ashan_frp.Admin.Reset.{stamp_account}

-- One login with a password, at these times.
pub record Attempt : Type 0 where
  pub times : LoginTimes
  pub password : String

module _ {S : Type 0} (accounts : Table S Account) (tokens : Table S AuthToken)
    (audits : Table S AuditLog) (hashes : Hashes) (c : Request) (id value username : String) where
  -- The database after a login with the name, and after several, the first of them first.
  unfoldable pub attempt : Attempt → S → S
  unfolding login
  attempt x s =
      (login accounts tokens audits hashes c x.times id value
        (some (record { username = username; password = x.password })) s).db

  unfoldable pub attempts : List Attempt → S → S
  unfolding attempt
  attempts [] s = s
  attempts (x ∷ xs) s = attempts xs (attempt x s)

  -- The name finds the row of this account before each of the logins, and after the last.
  abbrev pub IsFound : String → List Attempt → S → Type 0
  IsFound k [] s = success (find_account_by_login accounts username s) ≡ accounts.row k s
  IsFound k (x ∷ xs) s =
      (success (find_account_by_login accounts username s) ≡ accounts.row k s)
      × IsFound k xs (attempt x s)

  -- None of the passwords is that of the hash.
  abbrev pub AreWrong : String → List Attempt → Type 0
  AreWrong hash [] = Unit
  AreWrong hash (x ∷ xs) = (hashes.verify_password x.password hash ≡ false) × AreWrong hash xs

  -- The row has so many wrong passwords, is locked until then, and has this hash.
  abbrev IsCounted : String → String → ℕ → Option ℕ → S → Type 0
  IsCounted k hash n until s =
      (a : Account) × (accounts.row k s ≡ some a)
      × (a.id ≡ k)
      × (a.password_hash ≡ hash)
      × (a.failed_attempts ≡ n)
      × (a.locked_until ≡ until)

  refused-IsCounted :
      (x : Attempt) (a : Account) (n : ℕ)
      → a.failed_attempts ≡ n
      → ((refuse_login x.times.refused a).id ≡ a.id)
        × ((refuse_login x.times.refused a).password_hash ≡ a.password_hash)
        × ((refuse_login x.times.refused a).failed_attempts ≡ suc n)
        × ((refuse_login x.times.refused a).locked_until
            ≡ (if leb 5 (suc n) then some (x.times.refused + fifteen_minutes) else a.locked_until))
  unfolding refuse_login
  refused-IsCounted x a n e = elim (Bool-cases (leb 5 (suc a.failed_attempts))) [
    | inl enough ↦ rw (sym e, enough) (refl, refl, refl, refl)
    | inr few ↦ rw (sym e, few) (refl, refl, refl, refl)
  ]

  attempt-refused :
      (x : Attempt) (a : Account) (s : S)
      → success (find_account_by_login accounts username s) ≡ some a
      → is_locked x.times.checked a ≡ false
      → hashes.verify_password x.password a.password_hash ≡ false
      → attempt x s ≡ (accounts.save (refuse_login x.times.refused a) s).0
  unfolding attempt login login_as
  attempt-refused x a s found closed wrong =
      rw (attempt, login, found, login_as, closed, wrong) refl

  module _ (law : IsTable accounts (λ a. a.id) stamp_account)
      (saves : (a : Account) (s : S) → (accounts.save a s).1 ≡ true) where
    attempt-IsCounted :
        (k hash : String) (x : Attempt) (n : ℕ) (until : Option ℕ) (s : S)
        → success (find_account_by_login accounts username s) ≡ accounts.row k s
        → hashes.verify_password x.password hash ≡ false
        → is_locked_until x.times.checked until ≡ false
        → IsCounted k hash n until s
        → IsCounted k hash
            (suc n)
            (if leb 5 (suc n) then some (x.times.refused + fifteen_minutes) else until)
            (attempt x s)
    unfolding is_locked
    attempt-IsCounted k hash x n until s finds wrong open1 (a, at, own, same, failed, locked) =
        let refused = refuse_login x.times.refused a in
        let (i, h, f, l) = refused-IsCounted x a n failed in
        let (created, updated, stored) = law.save_stored refused s (saves refused s) in
        let step =
          attempt-refused x a s (finds ∙ at) (ap (is_locked_until x.times.checked) locked ∙ open1)
            (ap (hashes.verify_password x.password) same ∙ wrong) in
        (
          stamp_account created updated refused,
          ap (accounts.row k) step
              ∙ ap (λ j. accounts.row j (accounts.save refused s).0) (sym (i ∙ own))
              ∙ stored,
          i ∙ own,
          h ∙ same,
          f,
          l
              ∙ ap (λ u. if leb 5 (suc n) then some (x.times.refused + fifteen_minutes) else u)
                  locked,
        )

    -- Fewer than five wrong passwords in all lock nothing.
    attempts-IsCounted :
        (k hash : String) (xs : List Attempt) (n : ℕ) (until : Option ℕ) (s : S)
        → length xs + n < 5
        → IsFound k xs s
        → AreWrong hash xs
        → All (λ x. is_locked_until x.times.checked until ≡ false) xs
        → IsCounted k hash n until s
        → IsCounted k hash (length xs + n) until (attempts xs s)
    unfolding attempts
    attempts-IsCounted k hash [] n until s few finds wrong open1 h =
        subst (λ m. IsCounted k hash m until s) (omega arith) h
    attempts-IsCounted k hash (x ∷ xs) n until s few (finds, found) (bad, wrong) (open1, opened) h =
        let next = attempt-IsCounted k hash x n until s finds bad open1 h in
        let under : leb 5 (suc n) ≡ false = ground (arith, few) in
        let unlocked : IsCounted k hash (suc n) until (attempt x s) =
          subst
            (λ b.
              IsCounted k hash (suc n)
                (if b then some (x.times.refused + fifteen_minutes) else until) (attempt x s))
            under next in
        subst (λ m. IsCounted k hash m until (attempts xs (attempt x s))) (omega arith)
          (attempts-IsCounted k hash xs (suc n) until (attempt x s) (omega (arith, few)) found wrong
            opened unlocked)

    login-refused :
        (now : LoginTimes) (k hash password : String) (n until : ℕ) (s : S)
        → success (find_account_by_login accounts username s) ≡ accounts.row k s
        → now.checked < until
        → IsCounted k hash n (some until) s
        → let r =
            login accounts tokens audits hashes c now id value
              (some (record { username = username; password = password }))
              s in
          (r.response ≡ refuse 429 "ACCOUNT_LOCKED") × (r.db ≡ s)
    unfolding login login_as is_locked
    login-refused now k hash password n until s finds early (a, at, own, same, failed, locked) =
        let closed : is_locked now.checked a ≡ true =
          ap (is_locked_until now.checked) locked ∙ lt→ltb now.checked until early in
        rw (finds ∙ at, closed) (refl, refl)

    IsFound-last :
        (k : String) (xs : List Attempt) (x : Attempt) (s : S)
        → IsFound k (xs ++ x ∷ []) s
        → (success (find_account_by_login accounts username (attempts xs s))
            ≡ accounts.row k (attempts xs s))
          × (success (find_account_by_login accounts username (attempt x (attempts xs s)))
              ≡ accounts.row k (attempt x (attempts xs s)))
    unfolding attempts
    IsFound-last k [] x s (h, g) = (h, g)
    IsFound-last k (y ∷ xs) x s (h, g) = IsFound-last k xs x (attempt y s) g

    IsFound-front :
        (k : String) (xs : List Attempt) (x : Attempt) (s : S)
        → IsFound k (xs ++ x ∷ []) s
        → IsFound k xs s
    IsFound-front k [] x s (h, g) = h
    IsFound-front k (y ∷ xs) x s (h, g) = (h, IsFound-front k xs x (attempt y s) g)

    -- Five logins in a row with wrong passwords, counted with those from before, lock the account: for
    -- fifteen minutes from the last of them any login with its name is answered by 429, whatever the
    -- password, and leaves the database as it is. The account must not be
    -- locked already at the times of the five. The assumptions are those on the table of the accounts,
    -- that its rows can be saved, and that the name finds the row of this account.
    pub login-locked_out :
        (a : Account) (xs : List Attempt) (x : Attempt) (now : LoginTimes) (password : String)
        (s : S)
        → accounts.row a.id s ≡ some a
        → length xs + a.failed_attempts ≡ 4
        → IsFound a.id (xs ++ x ∷ []) s
        → AreWrong a.password_hash xs
        → hashes.verify_password x.password a.password_hash ≡ false
        → All (λ y. is_locked y.times.checked a ≡ false) xs
        → is_locked x.times.checked a ≡ false
        → now.checked < x.times.refused + fifteen_minutes
        → let s' = attempt x (attempts xs s) in
          let r =
            login accounts tokens audits hashes c now id value
              (some (record { username = username; password = password }))
              s' in
          (r.response ≡ refuse 429 "ACCOUNT_LOCKED") × (r.db ≡ s')
    unfolding is_locked
    login-locked_out a xs x now password s at four found wrong bad opened open1 early =
        let (before, last) = IsFound-last a.id xs x s found in
        let counted =
          attempts-IsCounted a.id a.password_hash xs a.failed_attempts a.locked_until s
            (omega (arith, four)) (IsFound-front a.id xs x s found) wrong opened
            (a, at, refl, refl, refl, refl) in
        let fifth =
          attempt-IsCounted a.id a.password_hash x 4 a.locked_until (attempts xs s) before bad open1
            (subst (λ m. IsCounted a.id a.password_hash m a.locked_until (attempts xs s)) four
              counted) in
        login-refused now a.id a.password_hash password 5 (x.times.refused + fifteen_minutes)
          (attempt x (attempts xs s)) last early fifth
