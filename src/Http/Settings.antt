-- ===== src/Http/Settings.antt =====
-- frp-backend/internal/http/handlers/settings.go: how a credential of Cloudflare is verified and saved.
-- What Cloudflare answers to a client is an argument, and so are the encryption of a secret, its
-- reference and JSON.
pub mod Update
pub mod Detected
pub mod Verify
pub mod Verified
pub mod View
use ashan_frp.Base.{
  ℕ, zero, suc, String, ◌<>◌, Bool, true, false, not, ◌&&◌, ◌||◌, Option, none, some, List, [], ◌∷◌,
}
use ashan_frp.Base.{◌==◌, string_eq, if◌then◌else◌}
use ashan_frp.Base.Int.{ℤ, pos, negsuc}
use ashan_frp.Base.Result.{Result, ok, failed}
use ashan_frp.Base.Text.{trim_space, after, contains, to_lower}
use ashan_frp.Domain.Account.{AuditLog}
use ashan_frp.Domain.Credential.{UpstreamCredential, zero_credential}
use ashan_frp.Domain.Settings.{
  Setting, CfZone, IntegrationSettings, zero_integrations, zero_cloudflare, SettingsPatchRequest,
}
use ashan_frp.Cloudflare.Client.{
  Credentials, DnsRecord, auth_candidates, auth_method_api_token, auth_method_global_api_key,
}
use ashan_frp.Observability.{token_mask}
use ashan_frp.Repository.{Table, Lookup, success}
use ashan_frp.Repository.Credentials.{find_credential_by_provider}
use ashan_frp.Repository.Settings.{get_setting, set_setting, save_credential_and_setting}
use ashan_frp.Http.Request.{Request, Reply, without_body, with_body, audit_entry}
use ashan_frp.Http.Response.{Response, respond, refuse}

-- What a client of Cloudflare answers.
pub record CloudflareVerifier : Type 0 where
  pub verify_token : Result Unit
  pub resolve_zone : Result Unit
  pub list_records : Result (List DnsRecord)
  pub list_zones : Result (List CfZone)

-- The body of `ConfigureCloudflare`.
pub record ConfigureInput : Type 0 where
  pub secret : String
  pub email : String
  pub zone_id : String

pub data Configured : Type 0 where
  zone_selection_required : Credentials → List CfZone → Configured
  saved : Credentials → CfZone → Configured

abbrev pub has_prefix : String → String → Bool
has_prefix p s = elim (after p s) [ none ↦ false | some rest ↦ true ]

-- `Revision++`.
abbrev pub next : ℤ → ℤ
next (pos n) = pos (suc n)
next (negsuc zero) = pos 0
next (negsuc (suc n)) = negsuc n

abbrev zones_of : Result (List CfZone) → Option (List CfZone)
zones_of (failed e) = none
zones_of (ok zs) = some zs

abbrev verified : Result Unit → Result (List CfZone) → Option (List CfZone)
verified (failed e) zs = none
verified (ok done) zs = zones_of zs

-- The zones that a candidate can read, none where it is skipped or an answer is an error. A token is
-- verified first.
unfoldable pub candidate_zones :
    (Credentials → String → CloudflareVerifier) → Credentials → Option (List CfZone)
candidate_zones client c =
    let v = client c "" in
    if c.auth_method == auth_method_global_api_key && c.email == ""
    then none
    else if c.auth_method == auth_method_api_token
    then verified v.verify_token v.list_zones
    else zones_of v.list_zones

abbrev pick :
    Credentials
    → Option (List CfZone)
    → Option (Credentials × List CfZone)
    → Option (Credentials × List CfZone)
pick c none rest = rest
pick c (some zs) rest = some (c, zs)

-- The first candidate that is accepted, and its zones.
unfoldable pub detect :
    (Credentials → String → CloudflareVerifier)
    → List Credentials
    → Option (Credentials × List CfZone)
unfolding candidate_zones
detect client [] = none
detect client (c ∷ cs) = pick c (candidate_zones client c) (detect client cs)

pub data Selection : Type 0 where
  no_zones : Selection
  not_accessible : Selection
  several : Selection
  selected : CfZone → Selection

unfoldable pub find_zone : String → List CfZone → Selection
find_zone id [] = not_accessible
find_zone id (z ∷ zs) = let rest = find_zone id zs in if z.id == id then selected z else rest

abbrev only_zone : List CfZone → Selection
only_zone [] = no_zones
only_zone (z ∷ []) = selected z
only_zone (z ∷ y ∷ zs) = several

-- The zone that is asked for, or the only one.
unfoldable pub select_zone : String → List CfZone → Selection
unfolding find_zone
select_zone id [] = no_zones
select_zone id (z ∷ zs) = if id == "" then only_zone (z ∷ zs) else find_zone id (z ∷ zs)

-- The row of a verified credential; `ref` is its reference.
unfoldable pub verified_credential :
    ℕ → Credentials → CfZone → String → String → UpstreamCredential → UpstreamCredential
verified_credential now detected zone encrypted ref c = record c {
  revision = if c.credential_ref == ref then c.revision else next c.revision;
  identifier = zone.name;
  auth_method = detected.auth_method;
  account_email = detected.email;
  zone_id = zone.id;
  encrypted_secret = encrypted;
  mask_hint = token_mask detected.secret;
  credential_ref = ref;
  last_verified_at = some now;
  last_error = "";
  updated_at = now;
}

-- The settings that are kept beside it, without the secrets.
unfoldable pub cloudflare_settings :
    Credentials → CfZone → IntegrationSettings → IntegrationSettings
cloudflare_settings detected zone i = record i {
  cloudflare = record zero_cloudflare {
    auth_method = detected.auth_method;
    account_email = detected.email;
    zone_id = zone.id;
    zone_name = zone.name;
  };
  chmlfrp = record i.chmlfrp { password = "" };
  onepanel = record i.onepanel { api_token = "" };
}

module _ {S : Type 0} (credentials : Table S UpstreamCredential) (settings : Table S Setting)
    (audits : Table S AuditLog) (encrypt : String → Option String)
    (credential_ref : String → String) (encode : IntegrationSettings → String)
    (decode : String → IntegrationSettings) (c : Request) where
  -- `currentIntegrationSettings`.
  current_of : Option Setting → IntegrationSettings
  current_of none = zero_integrations
  current_of (some r) = decode r.value_json

  unfoldable pub current_integration_settings : S → IntegrationSettings
  unfolding current_of get_setting
  current_integration_settings s = current_of (success (get_setting settings "integrations" s))

  -- A credential of the provider that is there, or a new one.
  credential_or : String → String → Option UpstreamCredential → UpstreamCredential
  credential_or id provider none = record zero_credential { id = id; provider = provider }
  credential_or id provider (some cred) = cred

  unfoldable pub audit : String → String → String → S → S
  audit action resource_type resource_id s =
      (audits.create (audit_entry c c.account_name action resource_type resource_id) s).0

  module _ (commit : S → Bool) (client : Credentials → String → CloudflareVerifier) where
    finished : Credentials → CfZone → String → S × Result Unit → Reply S Configured
    unfolding audit
    finished detected zone id (s, failed e) = without_body s (refuse 500 "CREDENTIAL_SAVE_FAILED")
    finished detected zone id (s, ok done) =
        with_body (audit "cloudflare.credential.save" "credential" id s) (respond 200)
          (saved detected zone)

    save_verified : ℕ → String → Credentials → CfZone → Option String → S → Reply S Configured
    unfolding finished verified_credential cloudflare_settings save_credential_and_setting
        credential_or find_credential_by_provider current_integration_settings
    save_verified now id detected zone none s = without_body s (refuse 500 "CREDENTIAL_SAVE_FAILED")
    save_verified now id detected zone (some encrypted) s =
        let found =
          credential_or id "cloudflare"
            (success (find_credential_by_provider credentials "cloudflare" s)) in
        let cred =
          verified_credential now detected zone encrypted (credential_ref detected.secret) found in
        finished detected zone cred.id (
          save_credential_and_setting settings credentials commit now cred "integrations"
            (encode (cloudflare_settings detected zone (current_integration_settings s))) s)

    read_zone : ℕ → String → Credentials → CfZone → Result (List DnsRecord) → S → Reply S Configured
    unfolding save_verified
    read_zone now id detected zone (failed e) s =
        without_body s (refuse 400 "CLOUDFLARE_DNS_READ_FAILED")
    read_zone now id detected zone (ok rs) s =
        save_verified now id detected zone (encrypt detected.secret) s

    with_selection : ℕ → String → Credentials → List CfZone → Selection → S → Reply S Configured
    unfolding read_zone
    with_selection now id detected zones no_zones s =
        without_body s (refuse 400 "CLOUDFLARE_NO_ZONES")
    with_selection now id detected zones not_accessible s =
        without_body s (refuse 400 "CLOUDFLARE_ZONE_NOT_ACCESSIBLE")
    with_selection now id detected zones several s =
        with_body s (respond 200) (zone_selection_required detected zones)
    with_selection now id detected zones (selected zone) s =
        read_zone now id detected zone (client detected zone.id).list_records s

    with_detected :
        ℕ → String → ConfigureInput → Option (Credentials × List CfZone) → S → Reply S Configured
    unfolding with_selection select_zone
    with_detected now id i none s =
        if trim_space i.email == "" && not (has_prefix "cfut_" (trim_space i.secret))
        then without_body s (refuse 400 "CLOUDFLARE_EMAIL_REQUIRED")
        else without_body s (refuse 400 "CLOUDFLARE_CREDENTIAL_INVALID")
    with_detected now id i (some (detected, zones)) s =
        with_selection now id detected zones (select_zone (trim_space i.zone_id) zones) s

    -- `ConfigureCloudflare`; none is a body that does not bind or has no secret.
    unfoldable pub configure_cloudflare :
        ℕ → String → Option ConfigureInput → S → Reply S Configured
    unfolding with_detected detect
    configure_cloudflare now id none s = without_body s (refuse 400 "INVALID_REQUEST")
    configure_cloudflare now id (some i) s =
        if has_prefix "cfk_" (trim_space i.secret) && trim_space i.email == ""
        then without_body s (refuse 400 "CLOUDFLARE_EMAIL_REQUIRED")
        else with_detected now id i
            (detect client (auth_candidates (trim_space i.secret) (trim_space i.email))) s
