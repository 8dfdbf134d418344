-- ===== src/Http/Auth/Lockout.antt =====
-- When a login opens a session: not while its account is locked.
use ashan_frp.Base.{
  leb, ℕ, ◌≤◌, ◌≡◌, refl, String, true, false, Option, none, some, arith, ◌↔◌, some_inj,
}
use mathlib.Core.Path.{subst}
use ashan_frp.Base.{sym, string_eq}
use ashan_frp.Domain.Account.{Account, AuthToken, AuditLog}
use ashan_frp.Repository.{Table, success}
use ashan_frp.Repository.Accounts.{find_account_by_login}
use ashan_frp.Http.Request.{Request}
use ashan_frp.Http.Response.{respond}
use ashan_frp.Http.Auth.{Hashes, LoginRequest, LoginTimes, is_locked, login_as, login, open_session}

le→leb : (a b : ℕ) → a ≤ b → leb a b ≡ true
le→leb a b h = ground arith

module _ {S : Type 0} (accounts : Table S Account) (tokens : Table S AuthToken)
    (audits : Table S AuditLog) (hashes : Hashes) (c : Request) (now : LoginTimes)
    (id value : String) where
  -- Why a login succeeds.
  abbrev pub MayLogIn : Option Account → String → Type 0
  MayLogIn found password =
      (a : Account) × (found ≡ some a)
      × (is_locked now.checked a ≡ false)
      × (hashes.verify_password password a.password_hash ≡ true)

  login_as-some :
      (a : Account) (password : String) (s : S)
      → ((login_as accounts tokens audits hashes c now id value password (some a) s).response
          ≡ respond 200)
        ↔ ((is_locked now.checked a ≡ false)
            × (hashes.verify_password password a.password_hash ≡ true))
  unfolding login_as open_session is_locked
  login_as-some a password s = ground arith

  login_as-MayLogIn :
      (found : Option Account) (password : String) (s : S)
      → ((login_as accounts tokens audits hashes c now id value password found s).response
          ≡ respond 200)
        ↔ MayLogIn found password
  unfolding login_as open_session is_locked
  login_as-MayLogIn none password s = ground arith
  login_as-MayLogIn (some a) password s = (
    λ e. let why = (login_as-some a password s).0 e in (a, refl, why.0, why.1),
    λ (b, same, opened, right). (login_as-some a password s).1 (
        subst
          (λ o.
            (is_locked now.checked o ≡ false)
            × (hashes.verify_password password o.password_hash ≡ true))
          (sym (some_inj same)) (opened, right)),
  )

  -- A login is answered by 200 exactly when the account is found, is not locked, and its password
  -- is the one given.
  pub login-MayLogIn :
      (req : LoginRequest) (s : S)
      → ((login accounts tokens audits hashes c now id value (some req) s).response ≡ respond 200)
        ↔ MayLogIn (success (find_account_by_login accounts req.username s)) req.password
  unfolding login
  login-MayLogIn req s = login_as-MayLogIn _ req.password s
