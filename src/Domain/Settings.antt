-- ===== src/Domain/Settings.antt =====
-- frp-backend/internal/domain/types.go, model_types.go and integration_types.go: the settings and what
-- they tell of the services upstream.
use ashan_frp.Base.{ℕ, String, Bool, false, Option, none}
use ashan_frp.Base.Int.{ℤ, pos}

pub record ChmlFrpCredentials : Type 0 where
  pub username : String
  pub password : String
  pub has_password : Bool
  pub updated_at : ℕ
  pub last_validated_at : Option ℕ
  pub last_error_message : String

pub record OnePanelCredentials : Type 0 where
  pub base_url : String
  pub entrance : String
  pub api_token : String
  pub has_api_token : Bool
  pub updated_at : ℕ
  pub last_validated_at : Option ℕ
  pub last_error_message : String

pub record CloudflareCredentials : Type 0 where
  pub api_token : String
  pub auth_method : String
  pub account_email : String
  pub zone_id : String
  pub zone_name : String
  pub has_api_token : Bool
  pub updated_at : ℕ
  pub last_validated_at : Option ℕ
  pub last_error_message : String
  pub token_mask : String
  pub credential_ref : String
  pub credential_revision : ℤ

pub record IntegrationSettings : Type 0 where
  pub chmlfrp : ChmlFrpCredentials
  pub onepanel : OnePanelCredentials
  pub cloudflare : CloudflareCredentials

abbrev pub zero_cloudflare : CloudflareCredentials
zero_cloudflare = record {
  api_token = "";
  auth_method = "";
  account_email = "";
  zone_id = "";
  zone_name = "";
  has_api_token = false;
  updated_at = 0;
  last_validated_at = none;
  last_error_message = "";
  token_mask = "";
  credential_ref = "";
  credential_revision = pos 0;
}

abbrev pub zero_integrations : IntegrationSettings
zero_integrations = record {
  chmlfrp = record {
    username = "";
    password = "";
    has_password = false;
    updated_at = 0;
    last_validated_at = none;
    last_error_message = "";
  };
  onepanel = record {
    base_url = "";
    entrance = "";
    api_token = "";
    has_api_token = false;
    updated_at = 0;
    last_validated_at = none;
    last_error_message = "";
  };
  cloudflare = zero_cloudflare;
}

-- The other sections are the texts of their JSON.
pub record SettingsPatchRequest : Type 0 where
  pub general : String
  pub sync : String
  pub queue : String
  pub frpc_runtime : String
  pub integrations : IntegrationSettings

pub record Setting : Type 0 where
  pub key : String
  pub value_json : String
  pub updated_at : ℕ

abbrev pub zero_setting : Setting
zero_setting = record { key = ""; value_json = ""; updated_at = 0 }

-- A zone of Cloudflare; its other fields are only passed on.
pub record CfZone : Type 0 where
  pub id : String
  pub name : String
