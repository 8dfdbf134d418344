-- ===== src/Admin.antt =====
-- frp-backend/internal/admincli/service.go and frp-backend/internal/repository/admin_credentials.go:
-- the command that gives the administrator a new name and password.
pub mod Reset
use Prim.Native.String.{len}
use ashan_frp.Base.{
  ℕ, ltb, nat_beq, String, ◌<>◌, Bool, true, false, ◌||◌, ◌&&◌, Option, none, some, List, [], ◌∷◌,
}
use ashan_frp.Base.{◌==◌, string_eq, if◌then◌else◌}
use ashan_frp.Base.Result.{Result, ok, failed}
use ashan_frp.Base.Text.{trim_space, show_nat}
use ashan_frp.Domain.Account.{Account, AuthToken, AuditLog, is_revoked}
use ashan_frp.Repository.{Table}
use ashan_frp.Repository.Transactions.{transaction}
use ashan_frp.Repository.Accounts.{list_admin_accounts}

pub record AccountCredentialReset : Type 0 where
  pub account_id : String
  pub login_name : String
  pub password_hash : String

pub record ResetRequest : Type 0 where
  pub new_username : String
  pub new_password : String

pub record ResetResult : Type 0 where
  pub account_id : String
  pub login_name : String
  pub revoked_tokens : ℕ

unfoldable pub validate_username : String → Result String
validate_username value =
    let trimmed = trim_space value in
    if nat_beq (len trimmed) 0 || ltb 64 (len trimmed)
    then failed "username must contain 1 to 64 characters"
    else ok trimmed

-- The only account of the list.
unfoldable pub only_admin : Option (List Account) → Result Account
only_admin none = failed "find administrator"
only_admin (some []) = failed "no administrator account found"
only_admin (some (a ∷ [])) = ok a
only_admin (some (a ∷ b ∷ more)) = failed "multiple administrator accounts found"

-- The columns that the reset writes.
unfoldable pub reset_account : AccountCredentialReset → Account → Account
reset_account i a = record a {
  login_name = i.login_name;
  password_hash = i.password_hash;
  must_change_pwd = false;
  failed_attempts = 0;
  locked_until = none;
}

-- `account_id = ? AND revoked_at IS NULL`.
unfoldable pub is_open : String → AuthToken → Bool
unfolding is_revoked
is_open account_id t = t.account_id == account_id && (if is_revoked t then false else true)

unfoldable pub reset_entry : AccountCredentialReset → ℕ → AuditLog
reset_entry i revoked = record {
  account_id = i.account_id;
  account_name = i.login_name;
  action = "password.reset.cli";
  resource_type = "account";
  resource_id = i.account_id;
  detail_json = "{\"revoked_tokens\":" <> (show_nat revoked <> ",\"source\":\"cli\"}");
  request_id = "";
  trace_id = "";
  outcome = "";
  ip_address = "";
  user_agent = "";
}

module _ {S : Type 0} (accounts : Table S Account) (tokens : Table S AuthToken)
    (audits : Table S AuditLog) where
  after_audit : ℕ → S × Bool → S × Result ℕ
  after_audit revoked (s, false) = (s, failed "create audit log")
  after_audit revoked (s, true) = (s, ok revoked)

  after_revoke : AccountCredentialReset → S → S × Bool → S × Result ℕ
  unfolding after_audit
  after_revoke i before (s, false) = (s, failed "revoke tokens")
  after_revoke i before (s, true) =
      let revoked = tokens.affected (is_open i.account_id) before in
      after_audit revoked (audits.create (reset_entry i revoked) s)

  after_update : ℕ → AccountCredentialReset → S → S × Bool → S × Result ℕ
  unfolding after_revoke
  after_update now i before (s, false) = (s, failed "update account")
  after_update now i before (s, true) =
      if nat_beq (accounts.affected (λ a. a.id == i.account_id) before) 1
      then after_revoke i s
          (tokens.update (is_open i.account_id) (λ t. record t { revoked_at = some now }) s)
      else (s, failed "record not found")

  -- What `ResetAdminCredentials` does in its transaction.
  unfoldable pub reset_rows : ℕ → AccountCredentialReset → S → S × Result ℕ
  unfolding after_update
  reset_rows now i s =
      after_update now i s (accounts.update (λ a. a.id == i.account_id) (reset_account i) s)

  module _ (commit : S → Bool) where
    unfoldable pub reset_admin_credentials : ℕ → AccountCredentialReset → S → S × Result ℕ
    unfolding reset_rows transaction
    reset_admin_credentials now i s = transaction commit (λ s. reset_rows now i s) s

    module _ (hash_password : String → Option String) (str_ltb : String → String → Bool) where
      report : AccountCredentialReset → S × Result ℕ → S × Result ResetResult
      report i (s, failed e) = (s, failed ("reset administrator credentials: " <> e))
      report i (s, ok revoked) = (
        s,
        ok (record {
          account_id = i.account_id;
          login_name = i.login_name;
          revoked_tokens = revoked;
        }),
      )

      with_hash : ℕ → String → Account → Option String → S → S × Result ResetResult
      unfolding report reset_admin_credentials
      with_hash now username a none s = (s, failed "hash password")
      with_hash now username a (some hash) s =
          let i : AccountCredentialReset = record {
            account_id = a.id;
            login_name = username;
            password_hash = hash;
          } in
          report i (reset_admin_credentials now i s)

      with_admin : ℕ → String → String → Result Account → S → S × Result ResetResult
      unfolding with_hash
      with_admin now username password (failed e) s = (s, failed e)
      with_admin now username password (ok a) s =
          with_hash now username a (hash_password password) s

      with_username : ℕ → String → Result String → S → S × Result ResetResult
      unfolding with_admin list_admin_accounts only_admin
      with_username now password (failed e) s = (s, failed e)
      with_username now password (ok username) s =
          if ltb (len password) 8
          then (s, failed "password must contain at least 8 characters")
          else with_admin now username password
              (only_admin (list_admin_accounts accounts str_ltb s)) s

      unfoldable pub reset_password : ℕ → ResetRequest → S → S × Result ResetResult
      unfolding with_username validate_username
      reset_password now request s =
          with_username now request.new_password (validate_username request.new_username) s
