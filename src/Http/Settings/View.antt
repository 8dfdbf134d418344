-- ===== src/Http/Settings/View.antt =====
-- frp-backend/internal/http/handlers/settings.go: what `settingsMapToView` writes, beside the view
-- that it puts together.
pub mod Renamed
use ashan_frp.Base.{ℕ, leb, String, Bool, true, false, not, ◌&&◌, Option, none, some, List, [], ◌∷◌}
use ashan_frp.Base.{◌==◌, string_eq, if◌then◌else◌}
use ashan_frp.Base.Text.{contains, bytes}
use ashan_frp.Domain.Credential.{UpstreamCredential}
use ashan_frp.Domain.Settings.{Setting, CfZone, IntegrationSettings}
use ashan_frp.Cloudflare.Client.{Credentials}
use ashan_frp.Repository.{Table}
use ashan_frp.Repository.Settings.{set_setting}
use ashan_frp.Http.Settings.{CloudflareVerifier}
use ashan_frp.Http.Settings.Verify.{stored_client, zones_or_none, or_default}

-- An identifier that may be the ID of a zone.
abbrev pub is_zone_id : String → Bool
is_zone_id identifier =
    not (identifier == "") && not (contains identifier ".") && leb 20 (bytes identifier)

unfoldable pub zone_with_id : String → List CfZone → Option CfZone
zone_with_id id [] = none
zone_with_id id (z ∷ zs) = let rest = zone_with_id id zs in if z.id == id then some z else rest

abbrev pub shown_identifier : UpstreamCredential → Option CfZone → String
shown_identifier cred none = cred.identifier
shown_identifier cred (some z) = z.name

module _ {S : Type 0} (credentials : Table S UpstreamCredential) (settings : Table S Setting)
    (decrypt : String → Option String) (encode : IntegrationSettings → String)
    (parse : String → Option IntegrationSettings)
    (client : Credentials → String → CloudflareVerifier) where
  decrypted_zone : UpstreamCredential → Option String → Option CfZone
  unfolding zone_with_id stored_client
  decrypted_zone cred none = none
  decrypted_zone cred (some secret) =
      zone_with_id cred.identifier (zones_or_none (stored_client client secret cred "").list_zones)

  -- The zone whose ID is stored as the identifier.
  unfoldable pub resolved_zone : UpstreamCredential → Option CfZone
  unfolding decrypted_zone
  resolved_zone cred =
      if is_zone_id cred.identifier && not (cred.encrypted_secret == "")
      then decrypted_zone cred (decrypt cred.encrypted_secret)
      else none

  unfoldable pub save_name : UpstreamCredential → Option CfZone → S → S
  save_name cred none s = s
  save_name cred (some z) s = (credentials.save (record cred { identifier = z.name }) s).0

  set_name : ℕ → String → Option IntegrationSettings → S → S
  unfolding set_setting
  set_name now name none s = s
  set_name now name (some i) s =
      if i.cloudflare.zone_name == name
      then s
      else (set_setting settings now "integrations"
          (encode (record i { cloudflare = record i.cloudflare { zone_name = name } })) s).0

  set_name_in : ℕ → String → Setting → S → S
  unfolding set_name
  set_name_in now name r s =
      if r.key == "integrations" then set_name now name (parse r.value_json) s else s

  set_names : ℕ → String → List Setting → S → S
  unfolding set_name_in
  set_names now name [] s = s
  set_names now name (r ∷ rs) s = set_names now name rs (set_name_in now name r s)

  -- The name of the zone goes into the settings that are stored.
  unfoldable pub name_settings : ℕ → String → S → S
  unfolding set_names
  name_settings now name s =
      if name == ""
      then s
      else set_names now name (or_default [] (settings.find (λ r. true) (λ a b. false) none s)) s

  unfoldable pub view_credential : ℕ → UpstreamCredential → S → S
  unfolding save_name name_settings resolved_zone
  view_credential now cred s =
      if cred.provider == "cloudflare"
      then name_settings now (shown_identifier cred (resolved_zone cred))
          (save_name cred (resolved_zone cred) s)
      else s

  unfoldable pub view_credentials : ℕ → List UpstreamCredential → S → S
  unfolding view_credential
  view_credentials now [] s = s
  view_credentials now (cred ∷ creds) s = view_credentials now creds (view_credential now cred s)

  -- `settingsMapToView`, without the view.
  unfoldable pub settings_map_to_view : ℕ → S → S
  unfolding view_credentials
  settings_map_to_view now s =
      view_credentials now (or_default [] (credentials.find (λ c. true) (λ a b. false) none s)) s
