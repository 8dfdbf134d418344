-- ===== src/Domain/Credential.antt =====
-- frp-backend/internal/domain/model_types.go: the credentials of the services upstream, and how
-- the workers read the ChmlFrp token from one (frp-backend/internal/worker/failover.go, runner.go).
-- Decryption and JSON are parameters.
use ashan_frp.Base.{ℕ, String, Option, none, some}
use ashan_frp.Base.{◌==◌, string_eq, if◌then◌else◌}
use ashan_frp.Base.Int.{ℤ, pos}

pub record UpstreamCredential : Type 0 where
  pub id : String
  pub provider : String
  pub identifier : String
  pub auth_method : String
  pub account_email : String
  pub zone_id : String
  pub encrypted_secret : String
  pub mask_hint : String
  pub credential_ref : String
  pub revision : ℤ
  pub last_verified_at : Option ℕ
  pub last_error : String
  pub created_at : ℕ
  pub updated_at : ℕ

abbrev pub zero_credential : UpstreamCredential
zero_credential = record {
  id = "";
  provider = "";
  identifier = "";
  auth_method = "";
  account_email = "";
  zone_id = "";
  encrypted_secret = "";
  mask_hint = "";
  credential_ref = "";
  revision = pos 0;
  last_verified_at = none;
  last_error = "";
  created_at = 0;
  updated_at = 0;
}

-- The password of a secret in JSON, or else the whole secret.
unfoldable pub password_or : String → Option String → String
password_or secret none = secret
password_or secret (some password) = if password == "" then secret else password

-- `decrypt` is `security.Decrypt` under the key, and `password` the field of a secret that is the
-- JSON of `ChmlFrpCredentials`.
module _ (decrypt : String → Option String) (password : String → Option String) where
  unfoldable pub secret_token : Option String → String
  unfolding password_or
  secret_token none = ""
  secret_token (some secret) = password_or secret (password secret)

  -- The token of the credential that was found, "" if there is none.
  unfoldable pub credential_token : Option UpstreamCredential → String
  unfolding secret_token
  credential_token none = ""
  credential_token (some c) =
      if c.encrypted_secret == "" then "" else secret_token (decrypt c.encrypted_secret)
