-- ===== src/Examples/Admin.antt =====
-- The reset of the administrator at a concrete database.
use ashan_frp.Base.{refl, String, ltb, ◌<>◌, Bool, true, Option, some}
use ashan_frp.Base.Text.{bytes}
use ashan_frp.Domain.Account.{Account, AuthToken, zero_account, zero_token}
use ashan_frp.Admin.{ResetRequest, reset_password}
use ashan_frp.Admin.Reset.{IsReset, reset_password-IsReset, stamp_account}
use ashan_frp.Http.Auth.Logout.{stamp_token}
use ashan_frp.Examples.Database.{
  Database, no_rows, accounts, tokens, audits, accounts-IsTable, tokens-IsTable,
  tokens-accounts-IsApart, audits-accounts-IsApart, audits-tokens-IsApart,
}

abbrev locked_admin : Account
locked_admin = record zero_account {
  id = "acc_1";
  login_name = "admin";
  password_hash = "lost";
  role = "super_admin";
  failed_attempts = 5;
  locked_until = some 900;
}

abbrev open_token : AuthToken
open_token = record zero_token { id = "tok_1"; account_id = "acc_1"; expires_at = 2000 }

abbrev before : Database
before = (tokens.save open_token (accounts.save locked_admin no_rows).0).0

abbrev request : ResetRequest
request = record { new_username = " root "; new_password = "long enough" }

abbrev hashed : String → Option String
hashed password = some ("hash of " <> password)

abbrev shorter : String → String → Bool
shorter a b = ltb (bytes a) (bytes b)

reset_password-IsReset_example :
    IsReset accounts tokens audits hashed request before
      (reset_password accounts tokens audits (λ d. true) hashed shorter 1000 request before)
reset_password-IsReset_example =
    reset_password-IsReset accounts tokens audits
      (accounts-IsTable stamp_account (λ a. (a.created_at, a.updated_at, refl)))
      (tokens-IsTable stamp_token (λ t. (t.created_at, 0, refl))) tokens-accounts-IsApart
      audits-accounts-IsApart audits-tokens-IsApart (λ d. true) hashed shorter 1000 request before
