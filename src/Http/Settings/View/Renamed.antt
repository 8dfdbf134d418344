-- ===== src/Http/Settings/View/Renamed.antt =====
-- What building the view of the settings leaves of a credential.
use mathlib.Core.Path.{subst}
use ashan_frp.Base.{
  ℕ, String, ◌≡◌, refl, sym, ap, ◌∙◌, true, false, not, ◌&&◌, Option, none, some, List, [], ◌∷◌,
  All, All-map, IsIn, at_head, in_tail, ◌⊎◌, inl, inr, Bool-cases, eq_iff, some_inj, arith,
}
use ashan_frp.Base.{◌==◌, string_eq}
use ashan_frp.Base.Result.{Result, ok, failed}
use ashan_frp.Domain.Credential.{UpstreamCredential}
use ashan_frp.Domain.Settings.{Setting, CfZone, IntegrationSettings}
use ashan_frp.Cloudflare.Client.{Credentials}
use ashan_frp.Repository.{Table, IsTable, IsApart}
use ashan_frp.Repository.Settings.{set_setting}
use ashan_frp.Repository.Settings.Saved.{stamp_credential}
use ashan_frp.Http.Settings.{CloudflareVerifier}
use ashan_frp.Http.Settings.Verify.{stored_client, zones_or_none, or_default}
use ashan_frp.Http.Settings.View.{
  is_zone_id, zone_with_id, decrypted_zone, resolved_zone, shown_identifier, save_name, set_name,
  set_name_in, set_names, name_settings, view_credential, view_credentials, settings_map_to_view,
}

zone_with_id-IsIn :
    (id : String) (zs : List CfZone) (z : CfZone)
    → zone_with_id id zs ≡ some z
    → IsIn z zs × (z.id ≡ id)
unfolding zone_with_id
zone_with_id-IsIn id [] z e = absurd (cc e)
zone_with_id-IsIn id (y ∷ zs) z e = elim (Bool-cases (y.id == id)) [
  | inl own ↦
      let same : y ≡ z = some_inj (rw own at e) in
      (
        subst (λ x. IsIn x (y ∷ zs)) same (at_head zs),
        ap (λ x. x.id) (sym same) ∙ (eq_iff y.id id).0 own,
      )
  | inr other ↦
      let (within, named) = zone_with_id-IsIn id zs z (rw other at e) in
      (in_tail y zs within, named)
]

abbrev pub renamed : UpstreamCredential → String → ℕ → ℕ → UpstreamCredential
renamed r name created updated = record r {
  identifier = name;
  created_at = created;
  updated_at = updated;
}

module _ {S : Type 0} (credentials : Table S UpstreamCredential) (settings : Table S Setting)
    (decrypt : String → Option String) (encode : IntegrationSettings → String)
    (parse : String → Option IntegrationSettings)
    (client : Credentials → String → CloudflareVerifier) where
  -- A zone that Cloudflare lists for the credential, and whose ID is its identifier.
  abbrev pub IsOwnZone : UpstreamCredential → CfZone → Type 0
  IsOwnZone r z =
      (secret : String) × (decrypt r.encrypted_secret ≡ some secret)
      × (zs : List CfZone) × ((stored_client client secret r "").list_zones ≡ ok zs)
      × IsIn z zs
      × (z.id ≡ r.identifier)

  -- The credential as it was, or with the name of its zone in place of the ID of the zone, and new
  -- times.
  abbrev pub IsRenamed : UpstreamCredential → UpstreamCredential → Type 0
  IsRenamed r q =
      (q ≡ r) ⊎ ((z : CfZone) × (c : ℕ) × (u : ℕ) × IsOwnZone r z × (q ≡ renamed r z.name c u))

  abbrev pub IsRowRenamed : String → UpstreamCredential → S → Type 0
  IsRowRenamed k r s = (q : UpstreamCredential) × (credentials.row k s ≡ some q) × IsRenamed r q

  listed-IsOwnZone :
      (r : UpstreamCredential) (z : CfZone) (secret : String) (o : Result (List CfZone))
      → decrypt r.encrypted_secret ≡ some secret
      → (stored_client client secret r "").list_zones ≡ o
      → zone_with_id r.identifier (zones_or_none o) ≡ some z
      → IsOwnZone r z
  unfolding zone_with_id
  listed-IsOwnZone r z secret (failed e) open_up given h = absurd (cc h)
  listed-IsOwnZone r z secret (ok zs) open_up given h =
      let (within, named) = zone_with_id-IsIn r.identifier zs z h in
      (secret, open_up, zs, given, within, named)

  decrypted_zone-IsOwnZone :
      (r : UpstreamCredential) (z : CfZone) (o : Option String)
      → decrypt r.encrypted_secret ≡ o
      → decrypted_zone credentials settings decrypt encode parse client r o ≡ some z
      → IsOwnZone r z
  unfolding decrypted_zone
  decrypted_zone-IsOwnZone r z none e h = absurd (cc h)
  decrypted_zone-IsOwnZone r z (some secret) e h = listed-IsOwnZone r z secret _ e refl h

  resolved_zone-IsOwnZone :
      (r : UpstreamCredential) (z : CfZone)
      → resolved_zone credentials settings decrypt encode parse client r ≡ some z
      → IsOwnZone r z
  unfolding resolved_zone
  resolved_zone-IsOwnZone r z h =
      elim (Bool-cases (is_zone_id r.identifier && not (r.encrypted_secret == ""))) [
        | inl asked ↦ decrypted_zone-IsOwnZone r z _ refl (rw asked at h)
        | inr bare ↦ absurd (cc (rw bare at h))
      ]

  module _ (law : IsTable credentials (λ c. c.id) stamp_credential)
      (apart : IsApart settings credentials) where
    save_name-IsRowRenamed :
        (cred r : UpstreamCredential) (o : Option CfZone) (s : S) (k : String)
        → (k ≡ cred.id → cred ≡ r)
        → resolved_zone credentials settings decrypt encode parse client cred ≡ o
        → IsRowRenamed k r s
        → IsRowRenamed k r (save_name credentials settings decrypt encode parse client cred o s)
    unfolding save_name
    save_name-IsRowRenamed cred r none s k own e h = h
    save_name-IsRowRenamed cred r (some z) s k own e (q, at, was) =
        let fresh = record cred { identifier = z.name } in
        elim (Bool-cases (credentials.save fresh s).1) [
          | inr refused ↦ (q, law.save_failed fresh s k refused ∙ at, was)
          | inl done ↦ elim (Bool-cases (k == cred.id)) [
            | inr other ↦ (
              q,
              law.save_other fresh s k (λ e. ground (other, arith, eq_iff k cred.id, e)) ∙ at,
              was,
            )
            | inl same ↦
                let here = (eq_iff k cred.id).0 same in
                let is = own here in
                let (c, u, stored) = law.save_stored fresh s done in
                (
                  stamp_credential c u fresh,
                  ap (λ x. credentials.row x (credentials.save fresh s).0) here ∙ stored,
                  inr (
                    z,
                    c,
                    u,
                    subst (λ x. IsOwnZone x z) is (resolved_zone-IsOwnZone cred z e),
                    ap (λ x. renamed x z.name c u) is,
                  ),
                )
          ]
        ]

    set_name-kept :
        (now : ℕ) (name : String) (o : Option IntegrationSettings) (s : S) (k : String)
        → credentials.row k (set_name credentials settings decrypt encode parse client now name o s)
          ≡ credentials.row k s
    unfolding set_name set_setting
    set_name-kept now name none s k = refl
    set_name-kept now name (some i) s k = elim (Bool-cases (i.cloudflare.zone_name == name)) [
      | inl same ↦ rw same refl
      | inr other ↦ rw other (apart.save_apart _ s k)
    ]

    set_names-kept :
        (now : ℕ) (name : String) (rs : List Setting) (s : S) (k : String)
        → credentials.row k
            (set_names credentials settings decrypt encode parse client now name rs s)
          ≡ credentials.row k s
    unfolding set_names set_name_in
    set_names-kept now name [] s k = refl
    set_names-kept now name (r ∷ rs) s k = elim (Bool-cases (r.key == "integrations")) [
      | inl own ↦
          rw own (set_names-kept now name rs _ k ∙ set_name-kept now name (parse r.value_json) s k)
      | inr other ↦ rw other (set_names-kept now name rs s k)
    ]

    name_settings-kept :
        (now : ℕ) (name : String) (s : S) (k : String)
        → credentials.row k
            (name_settings credentials settings decrypt encode parse client now name s)
          ≡ credentials.row k s
    unfolding name_settings
    name_settings-kept now name s k = elim (Bool-cases (name == "")) [
      | inl bare ↦ rw bare refl
      | inr given ↦ rw given (
          set_names-kept now name (or_default [] (settings.find (λ r. true) (λ a b. false) none s))
            s k)
    ]

    view_credential-IsRowRenamed :
        (now : ℕ) (cred r : UpstreamCredential) (s : S) (k : String)
        → (k ≡ cred.id → cred ≡ r)
        → IsRowRenamed k r s
        → IsRowRenamed k r
            (view_credential credentials settings decrypt encode parse client now cred s)
    unfolding view_credential
    view_credential-IsRowRenamed now cred r s k own h =
        let zone = resolved_zone credentials settings decrypt encode parse client cred in
        elim (Bool-cases (cred.provider == "cloudflare")) [
          | inr other ↦ rw other h
          | inl cloudflare ↦
              let (q, at, was) = save_name-IsRowRenamed cred r zone s k own refl h in
              rw cloudflare (q, name_settings-kept now (shown_identifier cred zone) _ k ∙ at, was)
        ]

    view_credentials-IsRowRenamed :
        (now : ℕ) (creds : List UpstreamCredential) (r : UpstreamCredential) (s : S) (k : String)
        → All (λ cred. k ≡ cred.id → cred ≡ r) creds
        → IsRowRenamed k r s
        → IsRowRenamed k r
            (view_credentials credentials settings decrypt encode parse client now creds s)
    unfolding view_credentials
    view_credentials-IsRowRenamed now [] r s k own h = h
    view_credentials-IsRowRenamed now (cred ∷ creds) r s k own h =
        view_credentials-IsRowRenamed now creds r _ k own.1
          (view_credential-IsRowRenamed now cred r s k own.0 h)

    listed-own :
        (k : String) (r : UpstreamCredential) (s : S) (o : Option (List UpstreamCredential))
        → credentials.row k s ≡ some r
        → credentials.find (λ c. true) (λ a b. false) none s ≡ o
        → All (λ cred. k ≡ cred.id → cred ≡ r) (or_default [] o)
    listed-own k r s none at e = tt
    listed-own k r s (some creds) at e =
        All-map (λ cred h own. some_inj (sym h.1 ∙ ap (λ x. credentials.row x s) (sym own) ∙ at))
          creds (law.find_sound (λ c. true) (λ a b. false) none s creds e)

    pub settings_map_to_view-IsRowRenamed :
        (now : ℕ) (k : String) (r : UpstreamCredential) (s : S)
        → credentials.row k s ≡ some r
        → IsRowRenamed k r
            (settings_map_to_view credentials settings decrypt encode parse client now s)
    unfolding settings_map_to_view
    settings_map_to_view-IsRowRenamed now k r s at =
        view_credentials-IsRowRenamed now _ r s k (listed-own k r s _ at refl) (r, at, inl refl)
