-- ===== src/Domain/Account.antt =====
-- frp-backend/internal/domain/model_types.go: accounts, session tokens and audit entries.
use ashan_frp.Base.{ℕ, ltb, String, Bool, true, false, not, ◌&&◌, Option, none, some}

pub record Account : Type 0 where
  pub id : String
  pub login_name : String
  pub display_name : String
  pub password_hash : String
  pub role : String
  pub must_change_pwd : Bool
  pub failed_attempts : ℕ
  pub locked_until : Option ℕ
  pub last_login_at : Option ℕ
  pub last_ip : String
  pub created_at : ℕ
  pub updated_at : ℕ

abbrev pub zero_account : Account
zero_account = record {
  id = "";
  login_name = "";
  display_name = "";
  password_hash = "";
  role = "";
  must_change_pwd = false;
  failed_attempts = 0;
  locked_until = none;
  last_login_at = none;
  last_ip = "";
  created_at = 0;
  updated_at = 0;
}

pub record AuthToken : Type 0 where
  pub id : String
  pub account_id : String
  pub token_type : String
  pub token_hash : String
  pub scopes : String
  pub user_agent : String
  pub ip_address : String
  pub expires_at : ℕ
  pub revoked_at : Option ℕ
  pub last_used_at : Option ℕ
  pub created_at : ℕ

abbrev pub zero_token : AuthToken
zero_token = record {
  id = "";
  account_id = "";
  token_type = "";
  token_hash = "";
  scopes = "";
  user_agent = "";
  ip_address = "";
  expires_at = 0;
  revoked_at = none;
  last_used_at = none;
  created_at = 0;
}

-- `time.Now().After(t.ExpiresAt)`, with the time handed in.
unfoldable pub is_expired : ℕ → AuthToken → Bool
is_expired now t = ltb t.expires_at now

abbrev some? : Option ℕ → Bool
some? none = false
some? (some _) = true

unfoldable pub is_revoked : AuthToken → Bool
is_revoked t = some? t.revoked_at

unfoldable pub is_valid : ℕ → AuthToken → Bool
unfolding is_expired is_revoked
is_valid now t = not (is_expired now t) && not (is_revoked t)

pub record AuditLog : Type 0 where
  pub account_id : String
  pub account_name : String
  pub action : String
  pub resource_type : String
  pub resource_id : String
  pub detail_json : String
  pub request_id : String
  pub trace_id : String
  pub outcome : String
  pub ip_address : String
  pub user_agent : String
