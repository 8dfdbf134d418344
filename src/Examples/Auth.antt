-- ===== src/Examples/Auth.antt =====
-- Login, logout and the middleware at concrete inputs.
use ashan_frp.Base.{
  ℕ, ◌≡◌, refl, String, true, some, none, [], ◌∷◌, arith, eq_iff, some_inj, ◌∙◌, sym, ap,
  Bool-cases, inl, inr, ◌↔◌,
}
use ashan_frp.Base.{string_eq, ◌==◌}
use ashan_frp.Domain.Account.{
  Account, AuthToken, AuditLog, is_valid, is_expired, is_revoked, zero_account, zero_token,
}
use ashan_frp.Repository.{success}
use ashan_frp.Repository.Memory.{memory_table}
use ashan_frp.Repository.Parts.{part_table}
use ashan_frp.Repository.Accounts.{
  find_account_by_login, find_auth_token_by_hash, revoke_auth_token, touch_auth_token,
  find_account_by_id,
}
use ashan_frp.Http.Request.{Request}
use ashan_frp.Http.Response.{refuse, respond}
use ashan_frp.Http.Auth.{
  Hashes, LoginRequest, LoginTimes, login, login_as, open_session, refuse_login, logout, session,
  is_locked,
}
use ashan_frp.Base.{List, ◌++◌, false}
use ashan_frp.Repository.{IsTable}
use ashan_frp.Admin.Reset.{stamp_account}
use ashan_frp.Examples.Database.{accounts-IsTable}
use ashan_frp.Http.Auth.Locked.{Attempt, attempt, attempts, IsFound, login-locked_out}
use ashan_frp.Http.Auth.Lockout.{login-MayLogIn, MayLogIn}
use ashan_frp.Http.Auth.Logout.{logout-unauthorized, stamp_token, IsUnique}
use ashan_frp.Http.Access.{
  admitted, unauthorized, auth_middleware, by_header, bearer, bearer_of, admit, admit_secret,
}
use ashan_frp.Base.Text.{after}
use ashan_frp.Http.Access.Admitted.{Presents, auth_middleware-IsKnown}
use ashan_frp.Examples.Database.{Database, no_rows, accounts, tokens, audits, tokens-IsTable}

abbrev request : Request
request = record {
  account_id = "acc_1";
  account_name = "admin";
  request_id = "req_1";
  trace_id = "trc_1";
  client_ip = "192.0.2.1";
  user_agent = "curl";
}

-- Hashes that hide nothing.
abbrev plain : Hashes
plain = record { verify_password = λ p h. p == h; hash_password = λ p. some p; hash_token = λ t. t }

abbrev times : LoginTimes
times = record { checked = 100; refused = 100; admitted = 100; issued = 100 }

abbrev admin : Account
admin = record zero_account { id = "acc_1"; login_name = "admin"; password_hash = "secret" }

abbrev good : LoginRequest
good = record { username = "admin"; password = "secret" }

abbrev with_admin : Database
with_admin = (accounts.save admin no_rows).0

abbrev wrong : Attempt
wrong = record { times = times; password = "guess" }

abbrev four_wrong : List Attempt
four_wrong = wrong ∷ wrong ∷ wrong ∷ wrong ∷ []

abbrev later : LoginTimes
later = record { checked = 200; refused = 200; admitted = 200; issued = 200 }

law : IsTable accounts (λ a. a.id) stamp_account
law = accounts-IsTable stamp_account (λ a. (a.created_at, a.updated_at, refl))

saves : (a : Account) (s : Database) → (accounts.save a s).1 ≡ true
unfolding part_table memory_table
saves a s = refl

admin_there : accounts.row "acc_1" with_admin ≡ some admin
unfolding part_table memory_table
admin_there = refl

four_wrong-IsFound :
    IsFound accounts tokens audits plain request "tok_1" "session_1" "admin" "acc_1"
      (four_wrong ++ wrong ∷ [])
      with_admin
unfolding attempt login login_as is_locked refuse_login find_account_by_login part_table
    memory_table
four_wrong-IsFound = (refl, (refl, (refl, (refl, (refl, refl)))))

open_now : is_locked 100 admin ≡ false
unfolding is_locked
open_now = refl

login-locked_out_example :
    let s = attempt accounts tokens audits plain request "tok_1" "session_1" "admin" wrong (
      attempts accounts tokens audits plain request "tok_1" "session_1" "admin" four_wrong
        with_admin) in
    let r =
      login accounts tokens audits plain request later "tok_1" "session_1"
        (some (record { username = "admin"; password = "secret" }))
        s in
    (r.response ≡ refuse 429 "ACCOUNT_LOCKED") × (r.db ≡ s)
login-locked_out_example =
    login-locked_out accounts tokens audits plain request "tok_1" "session_1" "admin" law saves
      admin four_wrong wrong later "secret" with_admin admin_there (omega arith) four_wrong-IsFound
      (refl, (refl, (refl, (refl, tt)))) refl (open_now, (open_now, (open_now, (open_now, tt))))
      open_now (omega arith)

login-MayLogIn_example :
    ((login accounts tokens audits plain request times "tok_1" "session_1"
        (some good)
        with_admin).response
      ≡ respond 200)
    ↔ MayLogIn accounts tokens audits plain request times "tok_1" "session_1"
        (success (find_account_by_login accounts "admin" with_admin))
        "secret"
login-MayLogIn_example =
    login-MayLogIn accounts tokens audits plain request times "tok_1" "session_1" good with_admin

-- The right password of that account opens a session.
login_run :
    (login accounts tokens audits plain request times "tok_1" "session_1"
      (some good)
      with_admin).response
    ≡ respond 200
unfolding login login_as open_session is_locked find_account_by_login part_table memory_table
login_run = refl

abbrev session_1 : AuthToken
session_1 = record zero_token {
  id = "tok_1";
  account_id = "acc_1";
  token_hash = "session_1";
  expires_at = 1000;
}

abbrev with_session : Database
with_session = (tokens.save session_1 no_rows).0

unstamped : (t : AuthToken) → (c : ℕ) × (u : ℕ) × (stamp_token c u t ≡ t)
unstamped t = (t.created_at, 0, refl)

session_1-row : (k : String) (q : AuthToken) → tokens.row k with_session ≡ some q → q ≡ session_1
unfolding part_table memory_table
session_1-row k q e = elim (Bool-cases (k == "tok_1")) [
  | inr other ↦ absurd (cc (rw other at e))
  | inl here ↦ elim (Bool-cases ("tok_1" == k)) [
    | inr other ↦ absurd (cc (rw (here, other) at e))
    | inl same ↦ sym (some_inj (rw (here, same) at e))
  ]
]

with_session-IsUnique : IsUnique tokens with_session
with_session-IsUnique q r at_q at_r same =
    ap (λ t. t.id) (session_1-row q.id q at_q ∙ sym (session_1-row r.id r at_r))

found_session : success (find_auth_token_by_hash tokens "session_1" with_session) ≡ some session_1
unfolding find_auth_token_by_hash part_table memory_table
found_session = refl

audits-apart :
    (l : AuditLog) (s : Database) (k : String) → tokens.row k (audits.create l s).0 ≡ tokens.row k s
unfolding part_table memory_table
audits-apart l s k = refl

revoked : (revoke_auth_token tokens 60 "tok_1" with_session).1 ≡ true
unfolding revoke_auth_token part_table memory_table
revoked = refl

valid : is_valid 70 session_1 ≡ true
unfolding is_valid is_expired is_revoked
valid = refl

missing :
    accounts.first (λ a. a.id == "acc_1") (touch_auth_token tokens 70 "tok_1" with_session).0 ≡ none
unfolding touch_auth_token part_table memory_table
missing = refl

logout-unauthorized_example :
    let s' = (logout accounts tokens audits plain request 60 "session_1" with_session).db in
    (auth_middleware accounts tokens plain.hash_token 70 70 "/api/v1/tunnels" "" "session_1" s'
      ≡ (s', unauthorized))
    × ((session accounts tokens audits plain request 70 70 "session_1" s').body ≡ none)
unfolding part_table find_auth_token_by_hash memory_table
logout-unauthorized_example =
    logout-unauthorized accounts tokens audits (tokens-IsTable stamp_token unstamped) audits-apart
      plain request 60 70 70 "session_1" "/api/v1/tunnels" with_session session_1
      (λ e. ground (e, arith, eq_iff "session_1" "")) refl found_session with_session-IsUnique
      revoked

-- Before that logout the same cookie is let through, and no account of it is found.
admitted_run :
    (auth_middleware accounts tokens plain.hash_token 70 70 "/api/v1/tunnels" "" "session_1"
      with_session).1
    ≡ admitted (some zero_account)
unfolding auth_middleware by_header bearer bearer_of after admit_secret admit is_valid is_expired
    is_revoked find_auth_token_by_hash find_account_by_id touch_auth_token part_table memory_table
admitted_run = refl

auth_middleware-IsKnown_example :
    Presents accounts tokens stamp_token
      (tokens-IsTable stamp_token unstamped)
      plain.hash_token
      70
      70
      (bearer "")
      "session_1"
      with_session
auth_middleware-IsKnown_example =
    auth_middleware-IsKnown accounts tokens stamp_token (tokens-IsTable stamp_token unstamped)
      plain.hash_token 70 70 "/api/v1/tunnels" "" "session_1" with_session (some zero_account) refl
      admitted_run
