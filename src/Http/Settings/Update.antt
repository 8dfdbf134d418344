-- ===== src/Http/Settings/Update.antt =====
-- frp-backend/internal/http/handlers/settings.go: how the settings are changed. Logging in to ChmlFrp
-- and the test of 1Panel are arguments.
pub mod Kept
use ashan_frp.Base.{
  ℕ, zero, suc, String, ◌<>◌, Bool, true, false, not, ◌&&◌, ◌||◌, Option, none, some, List, [], ◌∷◌,
}
use ashan_frp.Base.{◌==◌, string_eq, if◌then◌else◌}
use ashan_frp.Base.Int.{ℤ, pos, negsuc}
use ashan_frp.Base.Result.{Result, ok, failed}
use ashan_frp.Base.Text.{trim_space, after, contains, to_lower}
use ashan_frp.Domain.Account.{AuditLog}
use ashan_frp.Domain.Credential.{UpstreamCredential, zero_credential}
use ashan_frp.Domain.Settings.{
  Setting, CfZone, IntegrationSettings, zero_integrations, zero_cloudflare, SettingsPatchRequest,
}
use ashan_frp.Cloudflare.Client.{
  Credentials, DnsRecord, auth_candidates, auth_method_api_token, auth_method_global_api_key,
}
use ashan_frp.Observability.{token_mask}
use ashan_frp.Repository.{Table, Lookup, success}
use ashan_frp.Repository.Credentials.{find_credential_by_provider}
use ashan_frp.Repository.Settings.{get_setting, set_setting, save_credential_and_setting}
use ashan_frp.Http.Request.{Request, Reply, without_body, with_body, audit_entry}
use ashan_frp.Http.Response.{Response, respond, refuse}
use ashan_frp.Http.Settings.View.{settings_map_to_view}
use ashan_frp.Http.Settings.{
  CloudflareVerifier, next, current_integration_settings, credential_or, audit,
}

-- What a generic change keeps of the settings: the part of Cloudflare is that from before, and no
-- secret nor state is stored.
unfoldable pub patched_integrations :
    IntegrationSettings → IntegrationSettings → IntegrationSettings
patched_integrations current asked = record asked {
  cloudflare = record current.cloudflare {
    api_token = "";
    has_api_token = false;
    last_validated_at = none;
    last_error_message = "";
  };
  chmlfrp = record asked.chmlfrp {
    password = "";
    has_password = false;
    last_validated_at = none;
    last_error_message = "";
  };
  onepanel = record asked.onepanel {
    api_token = "";
    has_api_token = false;
    last_validated_at = none;
    last_error_message = "";
  };
}

module _ {S : Type 0} (credentials : Table S UpstreamCredential) (settings : Table S Setting)
    (audits : Table S AuditLog) (encrypt : String → Option String)
    (credential_ref : String → String) (encode : IntegrationSettings → String)
    (decode : String → IntegrationSettings) (c : Request) where
  sealed : String → Option String → UpstreamCredential → UpstreamCredential
  sealed secret none cred = cred
  sealed secret (some encrypted) cred = record cred {
    encrypted_secret = encrypted;
    mask_hint = token_mask secret;
    credential_ref = credential_ref secret;
    revision = next cred.revision;
    last_error = "";
  }

  -- The row that `upsertCredential` writes: what is empty stays as it was.
  unfoldable pub upserted : ℕ → String → String → UpstreamCredential → UpstreamCredential
  unfolding sealed
  upserted now identifier secret cred =
      let named = record cred {
        identifier = if identifier == "" then cred.identifier else identifier;
        updated_at = now;
      } in
      if secret == "" then named else sealed secret (encrypt secret) named

  -- `upsertCredential`, for another provider than Cloudflare.
  unfoldable pub upsert_credential : ℕ → String → String → String → String → S → S
  unfolding upserted credential_or find_credential_by_provider
  upsert_credential now id provider identifier secret s =
      if identifier == "" && secret == ""
      then s
      else (credentials.save
          (upserted now identifier secret (
            credential_or credentials settings audits encrypt credential_ref encode decode c id
              provider (success (find_credential_by_provider credentials provider s))))
          s).0

  -- The row after a service was asked whether it takes the credential.
  unfoldable pub marked : ℕ → Result Unit → UpstreamCredential → UpstreamCredential
  marked now (failed e) cred = record cred { last_error = e; updated_at = now }
  marked now (ok done) cred = record cred {
    last_verified_at = some now;
    last_error = "";
    updated_at = now;
  }

  mark_found : ℕ → Result Unit → Option UpstreamCredential → S → S
  unfolding marked
  mark_found now answer none s = s
  mark_found now answer (some cred) s = (credentials.save (marked now answer cred) s).0

  unfoldable pub verify_one : ℕ → String → String → String → (String → String → Result Unit) → S → S
  unfolding mark_found find_credential_by_provider
  verify_one now provider identifier secret ask s =
      if not (identifier == "") && not (secret == "")
      then mark_found now (ask identifier secret)
          (success (find_credential_by_provider credentials provider s)) s
      else s

  -- `verifyIntegrations`: the login at ChmlFrp and the test of 1Panel are parameters.
  unfoldable pub verify_integrations :
      ℕ
      → (String → String → Result Unit)
      → (String → String → Result Unit)
      → IntegrationSettings
      → S
      → S
  unfolding verify_one
  verify_integrations now login test_connection i s =
      verify_one now "onepanel" i.onepanel.base_url i.onepanel.api_token test_connection
        (verify_one now "chmlfrp" i.chmlfrp.username i.chmlfrp.password login s)

  -- The sections of the settings, in one of the orders that a range over the map may take.
  set_sections : ℕ → SettingsPatchRequest → S → S
  unfolding set_setting
  set_sections now r s =
      (set_setting settings now "frpc_runtime" r.frpc_runtime
        (set_setting settings now "queue" r.queue
          (set_setting settings now "sync" r.sync
            (set_setting settings now "general" r.general s).0).0).0).0

  -- What `Update` writes, with the identifiers of two new credentials.
  unfoldable pub write_settings :
      ℕ
      → String
      → String
      → (String → String → Result Unit)
      → (String → String → Result Unit)
      → SettingsPatchRequest
      → S
      → S
  unfolding set_sections set_setting current_integration_settings patched_integrations
      upsert_credential verify_integrations
  write_settings now chmlfrp_id onepanel_id login test_connection r s =
      let sections = set_sections now r s in
      let kept =
        patched_integrations
          (current_integration_settings credentials settings audits encrypt credential_ref encode
            decode c sections)
          r.integrations in
      let stored = (set_setting settings now "integrations" (encode kept) sections).0 in
      let i = r.integrations in
      verify_integrations now login test_connection i (
        upsert_credential now onepanel_id "onepanel" i.onepanel.base_url i.onepanel.api_token
          (upsert_credential now chmlfrp_id "chmlfrp" i.chmlfrp.username i.chmlfrp.password stored))

  -- `Update`; none is a body that does not bind. Of the view that it answers only what building it
  -- writes is modelled.
  unfoldable pub update_settings :
      (String → Option String)
      → (String → Option IntegrationSettings)
      → (Credentials → String → CloudflareVerifier)
      → ℕ
      → String
      → String
      → (String → String → Result Unit)
      → (String → String → Result Unit)
      → Option SettingsPatchRequest
      → S
      → S × Response
  unfolding write_settings audit settings_map_to_view
  update_settings decrypt parse client now chmlfrp_id onepanel_id login test_connection none s =
      (s, refuse 400 "INVALID_REQUEST")
  update_settings decrypt parse client now chmlfrp_id onepanel_id login test_connection (some r) s =
      if trim_space r.integrations.cloudflare.api_token == ""
      then (
        settings_map_to_view credentials settings decrypt encode parse client now (
            audit credentials settings audits encrypt credential_ref encode decode c
              "settings.update" "settings" "global"
              (write_settings now chmlfrp_id onepanel_id login test_connection r s)),
        respond 200,
      )
      else (s, refuse 400 "USE_CLOUDFLARE_CONFIGURE")
