-- ===== src/Domain/Website.antt =====
-- frp-backend/internal/domain/types.go and model_types.go: the website mappings and the states of a
-- synchronisation. The domains are none where the source has nil; the configuration of HTTP is the
-- text of its JSON, "" if there is none.
use ashan_frp.Base.{ℕ, String, Bool, Option, List}

abbrev pub website_status_pending : String
website_status_pending = "pending"

abbrev pub website_status_synced : String
website_status_synced = "synced"

pub record WebsiteMapping : Type 0 where
  pub id : String
  pub source_kind : String
  pub node_id : String
  pub tunnel_id : String
  pub source_external_id : String
  pub website_alias : String
  pub primary_domain : String
  pub domains : Option (List String)
  pub https_enabled : Bool
  pub certificate_mode : String
  pub ssl_certificate_ref : String
  pub proxy_enabled : Bool
  pub cache_enabled : Bool
  pub proxy_target : String
  pub http_config_json : String
  pub conflict_strategy : String
  pub status : String
  pub panel_website_id : String
  pub last_synced_at : Option ℕ
  pub last_error_code : String
  pub last_error_message : String
  pub runtime_key : String
  pub created_at : ℕ
  pub updated_at : ℕ

-- The body of a request.
pub record WebsiteMappingInput : Type 0 where
  pub source_kind : String
  pub node_id : String
  pub tunnel_id : String
  pub source_external_id : String
  pub website_alias : String
  pub primary_domain : String
  pub domains : Option (List String)
  pub https_enabled : Bool
  pub certificate_mode : String
  pub ssl_certificate_ref : String
  pub proxy_enabled : Bool
  pub cache_enabled : Bool
  pub proxy_target : String
  pub http_config_json : Option String
  pub conflict_strategy : String

pub record SyncState : Type 0 where
  pub id : String
  pub local_resource_type : String
  pub local_resource_id : String
  pub external_provider : String
  pub external_id : String
  pub status : String
  pub diff_json : String
  pub last_checked_at : ℕ
  pub last_reconciled_at : Option ℕ
  pub created_at : ℕ
  pub updated_at : ℕ
