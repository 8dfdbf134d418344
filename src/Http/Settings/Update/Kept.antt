-- ===== src/Http/Settings/Update/Kept.antt =====
-- What a change of the settings leaves of the credentials.
use ashan_frp.Base.{
  ℕ, String, ◌≡◌, ◌≢◌, refl, sym, ap, ◌∙◌, ◌&&◌, not, Option, none, some, inl, inr, Bool-cases,
  eq_iff, some_inj,
}
use ashan_frp.Base.{◌==◌, string_eq}
use ashan_frp.Base.Result.{Result, ok, failed}
use ashan_frp.Base.Text.{trim_space}
use ashan_frp.Domain.Account.{AuditLog}
use ashan_frp.Domain.Credential.{UpstreamCredential, zero_credential}
use ashan_frp.Domain.Settings.{Setting, IntegrationSettings, SettingsPatchRequest}
use ashan_frp.Repository.{Table, IsTable, IsApart, success, success-or_zero}
use ashan_frp.Repository.Credentials.{find_credential_by_provider}
use ashan_frp.Repository.Settings.{set_setting}
use ashan_frp.Repository.Settings.Saved.{stamp_credential}
use ashan_frp.Http.Request.{Request}
use ashan_frp.Http.Settings.{CloudflareVerifier, credential_or, audit}
use ashan_frp.Http.Settings.View.Renamed.{IsRowRenamed, settings_map_to_view-IsRowRenamed}
use ashan_frp.Cloudflare.Client.{Credentials}
use ashan_frp.Http.Settings.Update.{
  sealed, upserted, upsert_credential, marked, mark_found, verify_one, verify_integrations,
  set_sections, write_settings, update_settings,
}

module _ {S : Type 0} (credentials : Table S UpstreamCredential) (settings : Table S Setting)
    (audits : Table S AuditLog) (encrypt : String → Option String)
    (credential_ref : String → String) (encode : IntegrationSettings → String)
    (decode : String → IntegrationSettings) (c : Request)
    (law : IsTable credentials (λ c. c.id) stamp_credential) where
  -- A credential of Cloudflare.
  abbrev HasRow : String → UpstreamCredential → S → Type 0
  HasRow k r s = (credentials.row k s ≡ some r) × (r.provider ≡ "cloudflare")

  -- Another credential than that of Cloudflare has another identifier.
  found-other :
      (k provider : String) (r found : UpstreamCredential) (s : S)
      → HasRow k r s
      → provider ≢ "cloudflare"
      → success (find_credential_by_provider credentials provider s) ≡ some found
      → k ≢ found.id
  unfolding find_credential_by_provider
  found-other k provider r found s (at, own) other e same =
      let (hit, here) =
        law.first_sound (λ c. c.provider == provider) s found
          (success-or_zero zero_credential found _ e) in
      other (
        sym ((eq_iff found.provider provider).0 hit)
        ∙ ap (λ x. x.provider) (some_inj (sym here ∙ ap (λ x. credentials.row x s) (sym same) ∙ at))
        ∙ own)

  sealed-id :
      (secret : String) (o : Option String) (cred : UpstreamCredential)
      → (sealed credentials settings audits encrypt credential_ref encode decode c secret o cred).id
        ≡ cred.id
  unfolding sealed
  sealed-id secret none cred = refl
  sealed-id secret (some encrypted) cred = refl

  upserted-id :
      (now : ℕ) (identifier secret : String) (cred : UpstreamCredential)
      → (upserted credentials settings audits encrypt credential_ref encode decode c now identifier
          secret cred).id
        ≡ cred.id
  unfolding upserted
  upserted-id now identifier secret cred = elim (Bool-cases (secret == "")) [
    | inl bare ↦ rw bare refl
    | inr full ↦ rw full (sealed-id secret (encrypt secret) _)
  ]

  credential_or-other :
      (k id provider : String) (r : UpstreamCredential) (s : S) (o : Option UpstreamCredential)
      → k ≢ id
      → ((found : UpstreamCredential) → o ≡ some found → k ≢ found.id)
      → k
        ≢ (credential_or credentials settings audits encrypt credential_ref encode decode c id
            provider o).id
  unfolding credential_or
  credential_or-other k id provider r s none fresh h = fresh
  credential_or-other k id provider r s (some found) fresh h = h found refl

  upsert_credential-kept :
      (now : ℕ) (id provider identifier secret k : String) (r : UpstreamCredential) (s : S)
      → HasRow k r s
      → provider ≢ "cloudflare"
      → k ≢ id
      → HasRow k r (
          upsert_credential credentials settings audits encrypt credential_ref encode decode c now
            id provider identifier secret s)
  unfolding upsert_credential
  upsert_credential-kept now id provider identifier secret k r s (at, own) other fresh =
      let cred =
        credential_or credentials settings audits encrypt credential_ref encode decode c id provider
          (success (find_credential_by_provider credentials provider s)) in
      elim (Bool-cases (identifier == "" && secret == "")) [
        | inl bare ↦ rw bare (at, own)
        | inr full ↦ rw full (
          law.save_other
                (upserted credentials settings audits encrypt credential_ref encode decode c now
                  identifier secret cred)
                s k
                (λ same.
                  credential_or-other k id provider r s
                    (success (find_credential_by_provider credentials provider s)) fresh
                    (λ found e. found-other k provider r found s (at, own) other e)
                    (same ∙ upserted-id now identifier secret cred))
              ∙ at,
          own,
        )
      ]

  mark_found-kept :
      (now : ℕ) (answer : Result Unit) (k : String) (r : UpstreamCredential) (s : S)
      (o : Option UpstreamCredential)
      → HasRow k r s
      → ((found : UpstreamCredential) → o ≡ some found → k ≢ found.id)
      → HasRow k r (
          mark_found credentials settings audits encrypt credential_ref encode decode c now answer o
            s)
  unfolding mark_found marked
  mark_found-kept now answer k r s none at h = at
  mark_found-kept now (failed e) k r s (some found) (at, own) h =
      (law.save_other _ s k (h found refl) ∙ at, own)
  mark_found-kept now (ok done) k r s (some found) (at, own) h =
      (law.save_other _ s k (h found refl) ∙ at, own)

  verify_one-kept :
      (now : ℕ) (provider identifier secret k : String) (ask : String → String → Result Unit)
      (r : UpstreamCredential) (s : S)
      → HasRow k r s
      → provider ≢ "cloudflare"
      → HasRow k r (
          verify_one credentials settings audits encrypt credential_ref encode decode c now provider
            identifier secret ask s)
  unfolding verify_one
  verify_one-kept now provider identifier secret k ask r s at other =
      elim (Bool-cases (not (identifier == "") && not (secret == ""))) [
        | inl given ↦ rw given (
            mark_found-kept now (ask identifier secret) k r s _ at
              (λ found e. found-other k provider r found s at other e))
        | inr bare ↦ rw bare at
      ]

  module _ (apart : IsApart settings credentials) (audits_apart : IsApart audits credentials) where
    set_sections-kept :
        (now : ℕ) (p : SettingsPatchRequest) (k : String) (s : S)
        → credentials.row k (
            set_sections credentials settings audits encrypt credential_ref encode decode c now p s)
          ≡ credentials.row k s
    unfolding set_sections set_setting
    set_sections-kept now p k s =
        apart.save_apart _ _ k
        ∙ apart.save_apart _ _ k
        ∙ apart.save_apart _ _ k
        ∙ apart.save_apart _ s k

    write_settings-kept :
        (now : ℕ) (chmlfrp_id onepanel_id : String)
        (login test_connection : String → String → Result Unit) (p : SettingsPatchRequest)
        (k : String) (r : UpstreamCredential) (s : S)
        → HasRow k r s
        → k ≢ chmlfrp_id
        → k ≢ onepanel_id
        → HasRow k r (
            write_settings credentials settings audits encrypt credential_ref encode decode c now
              chmlfrp_id onepanel_id login test_connection p s)
    unfolding write_settings verify_integrations set_setting
    write_settings-kept now chmlfrp_id onepanel_id login test_connection p k r s (at, own) a b =
        let u = p.integrations.chmlfrp in
        let i = p.integrations.onepanel in
        verify_one-kept now "onepanel" i.base_url i.api_token k test_connection r _
          (verify_one-kept now "chmlfrp" u.username u.password k login r _
            (upsert_credential-kept now onepanel_id "onepanel" i.base_url i.api_token k r _
              (upsert_credential-kept now chmlfrp_id "chmlfrp" u.username u.password k r _
                (apart.save_apart _ _ k ∙ set_sections-kept now p k s ∙ at, own) (λ e. cc) a)
              (λ e. cc) b)
            (λ e. cc))
          (λ e. cc)

    -- A change of the settings keeps the credential of Cloudflare: whatever the request says, and
    -- whichever of the writes fail, the row of a credential whose provider is Cloudflare stays as it
    -- was, but that the ID of a zone as its identifier may give way to the name of that zone, one of
    -- those that Cloudflare lists for it, with the times of the database. The assumptions are those
    -- on the table of the credentials, that the settings and the audit entries are tables of their
    -- own, and that the identifiers for new credentials are new.
    pub update_settings-IsRowRenamed :
        (decrypt : String → Option String) (parse : String → Option IntegrationSettings)
        (client : Credentials → String → CloudflareVerifier) (now : ℕ)
        (chmlfrp_id onepanel_id : String) (login test_connection : String → String → Result Unit)
        (o : Option SettingsPatchRequest) (k : String) (r : UpstreamCredential) (s : S)
        → credentials.row k s ≡ some r
        → r.provider ≡ "cloudflare"
        → credentials.row chmlfrp_id s ≡ none
        → credentials.row onepanel_id s ≡ none
        → IsRowRenamed credentials settings decrypt encode parse client k r
            (update_settings credentials settings audits encrypt credential_ref encode decode c
              decrypt parse client now chmlfrp_id onepanel_id login test_connection o s).0
    unfolding update_settings audit
    update_settings-IsRowRenamed decrypt parse client now chmlfrp_id onepanel_id login
          test_connection none k r s at own f g =
        (r, at, inl refl)
    update_settings-IsRowRenamed decrypt parse client now chmlfrp_id onepanel_id login
          test_connection (some p) k r s at own f g =
        elim (Bool-cases (trim_space p.integrations.cloudflare.api_token == "")) [
          | inl bare ↦ rw bare (
              settings_map_to_view-IsRowRenamed credentials settings decrypt encode parse client law
                apart now k r
                (audit credentials settings audits encrypt credential_ref encode decode c
                  "settings.update" "settings" "global"
                  (write_settings credentials settings audits encrypt credential_ref encode decode c
                    now chmlfrp_id onepanel_id login test_connection p s))
                (audits_apart.create_apart _ _ k
                  ∙ (write_settings-kept now chmlfrp_id onepanel_id login test_connection p k r s
                      (at, own) (λ e. cc) (λ e. cc)).0))
          | inr given ↦ rw given (r, at, inl refl)
        ]
