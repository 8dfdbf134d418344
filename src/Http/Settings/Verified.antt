-- ===== src/Http/Settings/Verified.antt =====
-- What a credential of Cloudflare that is configured has passed.
use ashan_frp.Base.{IsIn}
use ashan_frp.Base.{
  ℕ, String, ◌≡◌, refl, ◌∙◌, Bool, ◌&&◌, not, Option, none, some, ◌⊎◌, inl, inr, List, Bool-cases,
  eq_iff,
}
use ashan_frp.Base.{◌==◌, string_eq}
use ashan_frp.Base.Result.{Result, ok, failed}
use ashan_frp.Base.Text.{trim_space}
use ashan_frp.Domain.Account.{AuditLog}
use ashan_frp.Domain.Credential.{UpstreamCredential, zero_credential}
use ashan_frp.Domain.Settings.{Setting, CfZone, IntegrationSettings}
use ashan_frp.Cloudflare.Client.{Credentials, DnsRecord, auth_candidates}
use ashan_frp.Repository.{Table, IsTable, IsApart, success, success-or_zero}
use ashan_frp.Repository.Credentials.{find_credential_by_provider}
use ashan_frp.Repository.Settings.Saved.{
  stamp_credential, IsSaved, undone, stored, save_credential_and_setting-IsSaved,
}
use ashan_frp.Http.Request.{Request, Reply}
use ashan_frp.Http.Settings.{
  CloudflareVerifier, ConfigureInput, Configured, zone_selection_required, saved, has_prefix,
  detect, Selection, verified_credential, credential_or, audit, finished, save_verified, read_zone,
  with_selection, with_detected, configure_cloudflare,
}
use ashan_frp.Http.Settings.Detected.{
  IsAccepted, IsDetected, detect-IsDetected, IsSelected, IsSelection, refused_none, refused_other,
  refused_several, picked, select_zone-IsSelection,
}

module _ {S : Type 0} (credentials : Table S UpstreamCredential) (settings : Table S Setting)
    (audits : Table S AuditLog) (encrypt : String → Option String)
    (credential_ref : String → String) (encode : IntegrationSettings → String)
    (decode : String → IntegrationSettings) (c : Request) (commit : S → Bool)
    (client : Credentials → String → CloudflareVerifier) where
  -- The row of the credential, with the encrypted secret and the zone.
  abbrev pub IsStored : Credentials → CfZone → S → Type 0
  IsStored detected zone s =
      (encrypted : String) × (r : UpstreamCredential) × (encrypt detected.secret ≡ some encrypted)
      × (credentials.row r.id s ≡ some r)
      × (r.provider ≡ "cloudflare")
      × (r.identifier ≡ zone.name)
      × (r.zone_id ≡ zone.id)
      × (r.auth_method ≡ detected.auth_method)
      × (r.account_email ≡ detected.email)
      × (r.encrypted_secret ≡ encrypted)
      × (r.last_error ≡ "")

  abbrev candidates : ConfigureInput → List Credentials
  candidates i = auth_candidates (trim_space i.secret) (trim_space i.email)

  -- What holds of the database after the handler, by the value that it answers.
  abbrev pub IsAnswered : ConfigureInput → S → S → Option Configured → Type 0
  IsAnswered i s s' none = s' ≡ s
  IsAnswered i s s' (some (zone_selection_required detected zones)) =
      (s' ≡ s) × IsDetected client (candidates i) (detected, zones)
  IsAnswered i s s' (some (saved detected zone)) =
      (zones : List CfZone) × (records : List DnsRecord) × ((client detected zone.id).list_records
        ≡ ok records)
      × IsIn zone zones
      × ((trim_space i.zone_id ≡ "") ⊎ (zone.id ≡ trim_space i.zone_id))
      × IsIn detected (candidates i)
      × IsAccepted client detected zones
      × IsStored detected zone s'

  abbrev pub IsVerified : ConfigureInput → S → Reply S Configured → Type 0
  IsVerified i s reply = IsAnswered i s reply.db reply.body

  module _ (law : IsTable credentials (λ c. c.id) stamp_credential)
      (apart : IsApart settings credentials) (audits_apart : IsApart audits credentials) where
    finished-IsVerified :
        (i : ConfigureInput) (now : ℕ) (detected : Credentials) (zone : CfZone)
        (zones : List CfZone) (records : List DnsRecord) (encrypted : String)
        (cred : UpstreamCredential) (s : S) (r : S × Result Unit)
        → IsDetected client (candidates i) (detected, zones)
        → IsSelected (trim_space i.zone_id) zones zone
        → (client detected zone.id).list_records ≡ ok records
        → encrypt detected.secret ≡ some encrypted
        → cred.provider ≡ "cloudflare"
        → IsSaved settings credentials
            (verified_credential now detected zone encrypted (credential_ref detected.secret) cred)
            s
            r
        → IsVerified i s (
            finished credentials settings audits encrypt credential_ref encode decode c commit
              client detected zone cred.id r)
    unfolding finished audit verified_credential
    finished-IsVerified i now detected zone zones records encrypted cred s r (here, read)
          (among, asked) answered sealed provider (undone e) =
        refl
    finished-IsVerified i now detected zone zones records encrypted cred s r (here, read)
          (among, asked) answered sealed provider (stored s' created updated at) =
        (
          zones,
          records,
          answered,
          among,
          asked,
          here,
          read,
          (
            encrypted,
            stamp_credential created updated (
                verified_credential now detected zone encrypted (credential_ref detected.secret)
                  cred),
            sealed,
            audits_apart.create_apart _ s' cred.id ∙ at,
            provider,
            refl,
            refl,
            refl,
            refl,
            refl,
            refl,
          ),
        )

    credential_or-provider :
        (id provider : String) (o : Option UpstreamCredential)
        → ((cred : UpstreamCredential) → o ≡ some cred → cred.provider ≡ provider)
        → (credential_or credentials settings audits encrypt credential_ref encode decode c id
            provider o).provider
          ≡ provider
    unfolding credential_or
    credential_or-provider id provider none h = refl
    credential_or-provider id provider (some cred) h = h cred refl

    save_verified-IsVerified :
        (i : ConfigureInput) (now : ℕ) (id : String) (detected : Credentials) (zone : CfZone)
        (zones : List CfZone) (records : List DnsRecord) (o : Option String) (s : S)
        → IsDetected client (candidates i) (detected, zones)
        → IsSelected (trim_space i.zone_id) zones zone
        → (client detected zone.id).list_records ≡ ok records
        → encrypt detected.secret ≡ o
        → IsVerified i s (
            save_verified credentials settings audits encrypt credential_ref encode decode c commit
              client now id detected zone o s)
    unfolding save_verified find_credential_by_provider verified_credential
    save_verified-IsVerified i now id detected zone zones records none s found chosen answered e =
        refl
    save_verified-IsVerified i now id detected zone zones records (some encrypted) s found chosen
          answered e =
        let here =
          credential_or credentials settings audits encrypt credential_ref encode decode c id
            "cloudflare" (success (find_credential_by_provider credentials "cloudflare" s)) in
        finished-IsVerified i now detected zone zones records encrypted here s _ found chosen
          answered e
          (credential_or-provider id "cloudflare" _ (λ cred at.
            (eq_iff cred.provider "cloudflare").0
              (law.first_sound (λ c. c.provider == "cloudflare") s cred
                (success-or_zero zero_credential cred _ at)).0))
          (save_credential_and_setting-IsSaved settings credentials law apart commit now
            (verified_credential now detected zone encrypted (credential_ref detected.secret) here)
            "integrations" _ s)

    read_zone-IsVerified :
        (i : ConfigureInput) (now : ℕ) (id : String) (detected : Credentials) (zone : CfZone)
        (zones : List CfZone) (r : Result (List DnsRecord)) (s : S)
        → IsDetected client (candidates i) (detected, zones)
        → IsSelected (trim_space i.zone_id) zones zone
        → (client detected zone.id).list_records ≡ r
        → IsVerified i s (
            read_zone credentials settings audits encrypt credential_ref encode decode c commit
              client now id detected zone r s)
    unfolding read_zone
    read_zone-IsVerified i now id detected zone zones (failed e) s found chosen answered = refl
    read_zone-IsVerified i now id detected zone zones (ok rs) s found chosen answered =
        save_verified-IsVerified i now id detected zone zones rs _ s found chosen answered refl

    with_selection-IsVerified :
        (i : ConfigureInput) (now : ℕ) (id : String) (detected : Credentials) (zones : List CfZone)
        (x : Selection) (s : S)
        → IsDetected client (candidates i) (detected, zones)
        → IsSelection (trim_space i.zone_id) zones x
        → IsVerified i s (
            with_selection credentials settings audits encrypt credential_ref encode decode c commit
              client now id detected zones x s)
    unfolding with_selection
    with_selection-IsVerified i now id detected zones x s found refused_none = refl
    with_selection-IsVerified i now id detected zones x s found refused_other = refl
    with_selection-IsVerified i now id detected zones x s found refused_several = (refl, found)
    with_selection-IsVerified i now id detected zones x s found (picked zone selection) =
        read_zone-IsVerified i now id detected zone zones _ s found selection refl

    with_detected-IsVerified :
        (i : ConfigureInput) (now : ℕ) (id : String) (o : Option (Credentials × List CfZone))
        (s : S)
        → detect client (candidates i) ≡ o
        → IsVerified i s (
            with_detected credentials settings audits encrypt credential_ref encode decode c commit
              client now id i o s)
    unfolding with_detected
    with_detected-IsVerified i now id none s e =
        elim (Bool-cases
          (trim_space i.email == "" && not (has_prefix "cfut_" (trim_space i.secret)))) [
            | inl bare ↦ rw bare refl
            | inr full ↦ rw full refl
          ]
    with_detected-IsVerified i now id (some (detected, zones)) s e =
        with_selection-IsVerified i now id detected zones _ s
          (detect-IsDetected client (candidates i) (detected, zones) e)
          (select_zone-IsSelection (trim_space i.zone_id) zones)

    -- A credential of Cloudflare is only saved once it was verified: where the handler answers that it
    -- is saved, it is one of the candidates for the secret; Cloudflare has verified it where it is a
    -- token, it comes with an address where it is a global key, and its zones were listed; the zone
    -- is among them, and the one asked for where one
    -- is; its records could be read; and the row of the provider has the name and the identifier of
    -- the zone, the way of authentication and the encrypted secret. With any other answer the database
    -- is as it was. The assumptions are those on the table of the credentials, and that the settings
    -- and the audit entries are tables of their own.
    pub configure_cloudflare-IsVerified :
        (now : ℕ) (id : String) (i : ConfigureInput) (s : S)
        → IsVerified i s (
            configure_cloudflare credentials settings audits encrypt credential_ref encode decode c
              commit client now id
              (some i)
              s)
    unfolding configure_cloudflare
    configure_cloudflare-IsVerified now id i s =
        elim (Bool-cases (has_prefix "cfk_" (trim_space i.secret) && trim_space i.email == "")) [
          | inl bare ↦ rw bare refl
          | inr full ↦ rw full (with_detected-IsVerified i now id _ s refl)
        ]
