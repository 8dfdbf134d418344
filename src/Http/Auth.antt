-- ===== src/Http/Auth.antt =====
-- frp-backend/internal/http/handlers/auth.go: login and its lockout, logout, the session and the
-- change of a password. The passwords' hash (argon2) and the tokens' (SHA-256) are parameters.
pub mod Lockout
pub mod Locked
pub mod Logout
use ashan_frp.Base.{
  ℕ, suc, ◌+◌, ltb, leb, String, Bool, true, false, not, Option, none, some, List, [],
}
use ashan_frp.Base.{◌==◌, string_eq, if◌then◌else◌}
use ashan_frp.Domain.Account.{Account, AuthToken, AuditLog, is_valid}
use ashan_frp.Repository.{Table, success}
use ashan_frp.Repository.Accounts.{
  find_account_by_login, find_account_by_id, find_auth_token_by_hash, revoke_auth_token,
  touch_auth_token, list_auth_tokens_by_account,
}
use ashan_frp.Http.Request.{Request, Reply, without_body, with_body, audit_entry}
use ashan_frp.Http.Response.{Response, respond, refuse}

-- `security.VerifyPassword`, `security.HashPassword` (none is an error) and `security.HashToken`.
pub record Hashes : Type 0 where
  pub verify_password : String → String → Bool
  pub hash_password : String → Option String
  pub hash_token : String → String

pub record LoginRequest : Type 0 where
  pub username : String
  pub password : String

pub record PasswordChange : Type 0 where
  pub old_password : String
  pub new_password : String

pub record AccountAuth : Type 0 where
  pub id : String
  pub login_name : String
  pub role : String

pub record LoginResponse : Type 0 where
  pub account : AccountAuth
  pub token : String
  pub mode : String
  pub expires_at : ℕ

-- `time.Now()` where the lock is read, where it is set, where the login is noted, and where the
-- token is issued.
pub record LoginTimes : Type 0 where
  pub checked : ℕ
  pub refused : ℕ
  pub admitted : ℕ
  pub issued : ℕ

abbrev pub fifteen_minutes : ℕ
fifteen_minutes = 900000000000

abbrev pub twenty_four_hours : ℕ
twenty_four_hours = 86400000000000

abbrev pub account_auth : Account → AccountAuth
account_auth a = record { id = a.id; login_name = a.login_name; role = a.role }

-- `acc.LockedUntil != nil && time.Now().Before(*acc.LockedUntil)`.
abbrev pub is_locked_until : ℕ → Option ℕ → Bool
is_locked_until now none = false
is_locked_until now (some until) = ltb now until

unfoldable pub is_locked : ℕ → Account → Bool
is_locked now a = is_locked_until now a.locked_until

-- The account after a wrong password.
unfoldable pub refuse_login : ℕ → Account → Account
refuse_login now a =
    let counted = record a { failed_attempts = suc a.failed_attempts } in
    if leb 5 (suc a.failed_attempts)
    then record counted { locked_until = some (now + fifteen_minutes) }
    else counted

-- The account after a login.
unfoldable pub admit_login : ℕ → String → Account → Account
admit_login now ip a = record a {
  failed_attempts = 0;
  locked_until = none;
  last_login_at = some now;
  last_ip = ip;
}

module _ {S : Type 0} (accounts : Table S Account) (tokens : Table S AuthToken)
    (audits : Table S AuditLog) (hashes : Hashes) (c : Request) where
  abbrev pub audit : String → String → String → String → String → S → S
  audit account_id account_name action resource_type resource_id s =
      (audits.create
        (audit_entry (record c { account_id = account_id }) account_name action resource_type
          resource_id)
        s).0

  abbrev pub auth_failed : S → Reply S LoginResponse
  auth_failed s = without_body s (refuse 401 "AUTH_FAILED")

  -- The token that a login creates; `created_at` is set by the database.
  unfoldable pub session_token : ℕ → String → String → Account → AuthToken
  session_token now id value a = record {
    id = id;
    account_id = a.id;
    token_type = "session";
    token_hash = hashes.hash_token value;
    scopes = "";
    user_agent = c.user_agent;
    ip_address = c.client_ip;
    expires_at = now + twenty_four_hours;
    revoked_at = none;
    last_used_at = none;
    created_at = 0;
  }

  -- A right password: the errors of the writes are ignored.
  unfoldable pub open_session : LoginTimes → String → String → Account → S → Reply S LoginResponse
  unfolding admit_login session_token
  open_session now id value account s =
      let a = admit_login now.admitted c.client_ip account in
      let token = session_token now.issued id value a in
      let saved = (tokens.create token (accounts.save a s).0).0 in
      with_body (audit a.id a.login_name "login" "account" a.id saved) (respond 200) (record {
        account = account_auth a;
        token = value;
        mode = "session";
        expires_at = token.expires_at;
      })

  -- `Login` once the account has been looked up; none is an error.
  unfoldable pub login_as :
      LoginTimes → String → String → String → Option Account → S → Reply S LoginResponse
  unfolding is_locked refuse_login open_session
  login_as now id value password none s = auth_failed s
  login_as now id value password (some a) s =
      if is_locked now.checked a
      then without_body s (refuse 429 "ACCOUNT_LOCKED")
      else if hashes.verify_password password a.password_hash
      then open_session now id value a s
      else auth_failed (accounts.save (refuse_login now.refused a) s).0

  -- `Login`; none is a body that does not bind. `id` and `value` are drawn by `NewID`.
  unfoldable pub login :
      LoginTimes → String → String → Option LoginRequest → S → Reply S LoginResponse
  unfolding login_as find_account_by_login
  login now id value none s = without_body s (refuse 400 "INVALID_REQUEST")
  login now id value (some req) s =
      login_as now id value req.password (success (find_account_by_login accounts req.username s)) s

  -- The part of `Logout` that revokes the token of the cookie, "" if there is none.
  unfoldable pub end_session : ℕ → String → S → S
  unfolding find_auth_token_by_hash revoke_auth_token
  end_session now cookie s =
      let found = find_auth_token_by_hash tokens (hashes.hash_token cookie) s in
      if cookie == ""
      then s
      else elim found.pointer [ none ↦ s | some t ↦ (revoke_auth_token tokens now t.id s).0 ]

  -- `Logout`.
  unfoldable pub logout : ℕ → String → S → Reply S AccountAuth
  unfolding end_session
  logout now cookie s =
      without_body
        (audit c.account_id c.account_name "logout" "account" c.account_id
          (end_session now cookie s))
        (respond 200)

  -- The answer of `Session`, by the account of the token; none is an error.
  session_as : Option Account → S → Reply S AccountAuth
  session_as none s = without_body s (respond 200)
  session_as (some a) s = with_body s (respond 200) (account_auth a)

  -- `Session` once the token has been looked up; none is an error. `used` is the time that the
  -- token is touched.
  unfoldable pub session_of : ℕ → ℕ → Option AuthToken → S → Reply S AccountAuth
  unfolding touch_auth_token find_account_by_id session_as
  session_of now used none s = without_body s (respond 200)
  session_of now used (some t) s =
      let touched = (touch_auth_token tokens used t.id s).0 in
      if is_valid now t
      then session_as (success (find_account_by_id accounts t.account_id touched)) touched
      else without_body s (respond 200)

  -- `Session`: an answer with no account says that there is no session.
  unfoldable pub session : ℕ → ℕ → String → S → Reply S AccountAuth
  unfolding session_of find_auth_token_by_hash
  session now used cookie s =
      if cookie == ""
      then without_body s (respond 200)
      else session_of now used
          (success (find_auth_token_by_hash tokens (hashes.hash_token cookie) s)) s

  rehashed : Account → Option String → S → Reply S AccountAuth
  rehashed a none s = without_body s (refuse 500 "INTERNAL")
  rehashed a (some hash) s =
      let a' = record a { password_hash = hash; must_change_pwd = false } in
      without_body
        (audit a'.id a'.login_name "password.change" "account" a'.id (accounts.save a' s).0)
        (respond 200)

  -- `ChangePassword` for the account of the request; none is a body that does not bind.
  unfoldable pub change_password : Account → Option PasswordChange → S → Reply S AccountAuth
  unfolding rehashed
  change_password a none s = without_body s (refuse 400 "INVALID_REQUEST")
  change_password a (some req) s =
      if hashes.verify_password req.old_password a.password_hash
      then rehashed a (hashes.hash_password req.new_password) s
      else without_body s (refuse 400 "INVALID_PASSWORD")

  -- `ListTokens` ignores the error of the query; the answer shows a part of each token.
  unfoldable pub list_tokens : S → Reply S (List AuthToken)
  unfolding list_auth_tokens_by_account
  list_tokens s = elim (list_auth_tokens_by_account tokens c.account_id s) [
    | none ↦ with_body s (respond 200) []
    | some ts ↦ with_body s (respond 200) ts
  ]

  -- `RevokeToken`.
  unfoldable pub revoke_token : ℕ → String → S → Reply S AccountAuth
  unfolding revoke_auth_token
  revoke_token now id s =
      without_body
        (audit c.account_id c.account_name "token.revoke" "auth_token" id
          (revoke_auth_token tokens now id s).0)
        (respond 200)
