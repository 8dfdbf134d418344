-- ===== src/Http/Settings/Verify/Outcome.antt =====
-- What a verification of the stored credential of Cloudflare leaves behind.
use ashan_frp.Base.{
  ℕ, String, ◌≡◌, refl, sym, ap, ◌∙◌, Bool, true, false, Option, none, some, List, [], ◌∷◌, ◌⊎◌,
  inl, inr, Bool-cases, eq_iff,
}
use ashan_frp.Base.{◌==◌, string_eq}
use ashan_frp.Base.Result.{Result, ok, failed}
use ashan_frp.Domain.Account.{AuditLog}
use ashan_frp.Domain.Credential.{UpstreamCredential, zero_credential}
use ashan_frp.Domain.Settings.{Setting, IntegrationSettings}
use ashan_frp.Cloudflare.Client.{Credentials}
use ashan_frp.Repository.{Table, IsTable, IsApart, success, success-or_zero}
use ashan_frp.Repository.Credentials.{find_credential_by_provider}
use ashan_frp.Repository.Settings.{set_setting}
use ashan_frp.Repository.Settings.Saved.{stamp_credential}
use ashan_frp.Http.Request.{Request}
use ashan_frp.Http.Settings.{CloudflareVerifier}
use ashan_frp.Http.Settings.Verify.{
  VerificationStep, with_steps, step, loaded, check_credential, zone_called, zones_or_none,
  or_default, Verification, named, rename_each, rename, audit_verification, settle, record_outcome,
  with_checked, with_loaded, verify_cloudflare_credential,
}
use ashan_frp.Http.Settings.Verify.Passed.{loaded-ok, IsPassed, check_credential-IsPassed}

module _ {S : Type 0} (credentials : Table S UpstreamCredential) (settings : Table S Setting)
    (audits : Table S AuditLog) (decrypt : String → Option String)
    (encode : IntegrationSettings → String) (parse : String → Option IntegrationSettings)
    (c : Request) (client : Credentials → String → CloudflareVerifier) where
  -- The row of the credential after it has passed.
  abbrev pub IsValid : ℕ → S → S → Type 0
  IsValid now s s' =
      (cred : UpstreamCredential) × (r : UpstreamCredential) × (credentials.row cred.id s
        ≡ some cred)
      × (cred.provider ≡ "cloudflare")
      × IsPassed client decrypt cred
      × (credentials.row cred.id s' ≡ some r)
      × (r.last_verified_at ≡ some now)
      × (r.last_error ≡ "")
      × (r.encrypted_secret ≡ cred.encrypted_secret)

  -- The row of the credential after it has failed.
  abbrev pub IsFailed : String → S → S → Type 0
  IsFailed e s s' =
      (cred : UpstreamCredential) × (r : UpstreamCredential) × (credentials.row cred.id s
        ≡ some cred)
      × (cred.provider ≡ "cloudflare")
      × (credentials.row cred.id s' ≡ some r)
      × (r.last_verified_at ≡ none)
      × (r.last_error ≡ e)
      × (r.encrypted_secret ≡ cred.encrypted_secret)

  -- What a verification leaves, by its error.
  abbrev pub IsSettled : ℕ → S → S → Option String → Type 0
  IsSettled now s s' none = IsValid now s s'
  IsSettled now s s' (some e) =
      ((k : String) → credentials.row k s' ≡ credentials.row k s) ⊎ IsFailed e s s'

  abbrev pub IsOutcome : ℕ → S → S × Verification → Type 0
  IsOutcome now s (s', v) = IsSettled now s s' v.error

  module _ (law : IsTable credentials (λ c. c.id) stamp_credential)
      (apart : IsApart settings credentials) (audits_apart : IsApart audits credentials) where
    named-kept :
        (now : ℕ) (name : String) (o : Option IntegrationSettings) (s : S) (k : String)
        → credentials.row k
            (named credentials settings audits decrypt encode parse c client now name o s)
          ≡ credentials.row k s
    unfolding named set_setting
    named-kept now name none s k = refl
    named-kept now name (some i) s k = apart.save_apart _ s k

    rename_each-kept :
        (now : ℕ) (name : String) (rs : List Setting) (s : S) (k : String)
        → credentials.row k
            (rename_each credentials settings audits decrypt encode parse c client now name rs s)
          ≡ credentials.row k s
    unfolding rename_each
    rename_each-kept now name [] s k = refl
    rename_each-kept now name (r ∷ rs) s k = elim (Bool-cases (r.key == "integrations")) [
      | inl own ↦
          rw own (rename_each-kept now name rs _ k ∙ named-kept now name (parse r.value_json) s k)
      | inr other ↦ rw other (rename_each-kept now name rs s k)
    ]

    rename-kept :
        (now : ℕ) (o : Option String) (s : S) (k : String)
        → credentials.row k
            (rename credentials settings audits decrypt encode parse c client now o s)
          ≡ credentials.row k s
    unfolding rename
    rename-kept now none s k = refl
    rename-kept now (some name) s k =
        rename_each-kept now name (or_default [] (settings.find (λ r. true) (λ a b. false) none s))
          s k

    failed-IsOutcome :
        (now : ℕ) (s : S) (e : String) (cred : UpstreamCredential) (steps : List VerificationStep)
        (x : S × Bool)
        → credentials.row cred.id s ≡ some cred
        → cred.provider ≡ "cloudflare"
        → credentials.save
            (record cred { updated_at = now; last_verified_at = none; last_error = e })
            s
          ≡ x
        → IsOutcome now s (
            record_outcome credentials settings audits decrypt encode parse c client steps
              (some e)
              (record cred { updated_at = now; last_verified_at = none; last_error = e })
              x)
    unfolding record_outcome audit_verification
    failed-IsOutcome now s e cred steps (s1, false) at own h =
        let failing = record cred { updated_at = now; last_verified_at = none; last_error = e } in
        inl (λ k.
          audits_apart.create_apart _ s1 k
          ∙ ap (λ x. credentials.row k x.0) (sym h)
          ∙ law.save_failed failing s k (ap (λ x. x.1) h))
    failed-IsOutcome now s e cred steps (s1, true) at own h =
        let failing = record cred { updated_at = now; last_verified_at = none; last_error = e } in
        let (created, updated, stored) = law.save_stored failing s (ap (λ x. x.1) h) in
        inr (
          cred,
          stamp_credential created updated failing,
          at,
          own,
          audits_apart.create_apart _ s1 cred.id
              ∙ ap (λ x. credentials.row cred.id x.0) (sym h)
              ∙ stored,
          refl,
          refl,
          refl,
        )

    passed-IsOutcome :
        (now : ℕ) (s s1 : S) (cred : UpstreamCredential) (name : String)
        (steps : List VerificationStep) (x : S × Bool)
        → credentials.row cred.id s ≡ some cred
        → cred.provider ≡ "cloudflare"
        → IsPassed client decrypt cred
        → ((k : String) → credentials.row k s1 ≡ credentials.row k s)
        → credentials.save
            (record cred {
              updated_at = now;
              last_verified_at = some now;
              last_error = "";
              identifier = name;
            })
            s1
          ≡ x
        → IsOutcome now s (
            record_outcome credentials settings audits decrypt encode parse c client steps none
              (record cred {
                updated_at = now;
                last_verified_at = some now;
                last_error = "";
                identifier = name;
              })
              x)
    unfolding record_outcome audit_verification
    passed-IsOutcome now s s1 cred name steps (s2, false) at own passed same h = inl (λ k.
        audits_apart.create_apart _ s2 k
        ∙ ap (λ x. credentials.row k x.0) (sym h)
        ∙ law.save_failed _ s1 k (ap (λ x. x.1) h)
        ∙ same k)
    passed-IsOutcome now s s1 cred name steps (s2, true) at own passed same h =
        let valid = record cred {
          updated_at = now;
          last_verified_at = some now;
          last_error = "";
          identifier = name;
        } in
        let (created, updated, stored) = law.save_stored valid s1 (ap (λ x. x.1) h) in
        (
          cred,
          stamp_credential created updated valid,
          at,
          own,
          passed,
          audits_apart.create_apart _ s2 cred.id
              ∙ ap (λ x. credentials.row cred.id x.0) (sym h)
              ∙ stored,
          refl,
          refl,
          refl,
        )

    settled-IsOutcome :
        (now : ℕ) (s : S) (cred : UpstreamCredential) (steps : List VerificationStep)
        (x : Result CloudflareVerifier)
        → credentials.row cred.id s ≡ some cred
        → cred.provider ≡ "cloudflare"
        → (check_credential client decrypt cred).value ≡ x
        → IsOutcome now s (
            with_checked credentials settings audits decrypt encode parse c client now cred
              (record { steps = steps; value = x })
              s)
    unfolding with_checked settle
    settled-IsOutcome now s cred steps (failed e) at own h =
        failed-IsOutcome now s e cred steps _ at own refl
    settled-IsOutcome now s cred steps (ok v) at own h =
        let name = zone_called cred.identifier (zones_or_none v.list_zones) in
        passed-IsOutcome now s
          (rename credentials settings audits decrypt encode parse c client now name s) cred
          (or_default cred.identifier name) steps _ at own
          (check_credential-IsPassed client decrypt cred v h) (λ k. rename-kept now name s k) refl

    loaded-IsOutcome :
        (now : ℕ) (s : S) (x : Result UpstreamCredential)
        → ((cred : UpstreamCredential)
            → x ≡ ok cred
            → (cred.provider ≡ "cloudflare") × (credentials.row cred.id s ≡ some cred))
        → IsOutcome now s
            (with_loaded credentials settings audits decrypt encode parse c client now x s)
    unfolding with_loaded
    loaded-IsOutcome now s (failed e) sound = inl (λ k. refl)
    loaded-IsOutcome now s (ok cred) sound =
        let (own, at) = sound cred refl in
        let checked =
          with_steps (step {A = Unit} "credential.load" (ok tt)).steps
            (check_credential client decrypt cred) in
        settled-IsOutcome now s cred checked.steps checked.value at own refl

    -- A verification of the credential of Cloudflare that reports no error has found the row of that
    -- provider, has decrypted its secret, and the client for it has answered the question for the
    -- credential, the zone and the records; the row then has the time of the verification and no error,
    -- and the same secret. One that reports an error leaves every credential as it was, or the row of
    -- that provider with this error, no time of a verification and the same secret. The assumptions are
    -- those on the table of the credentials, and that the settings and the audit entries are tables of
    -- their own.
    pub verify_cloudflare_credential-IsOutcome :
        (now : ℕ) (s : S)
        → IsOutcome now s (
            verify_cloudflare_credential credentials settings audits decrypt encode parse c client
              now s)
    unfolding verify_cloudflare_credential find_credential_by_provider
    verify_cloudflare_credential-IsOutcome now s =
        loaded-IsOutcome now s
          (loaded (success (find_credential_by_provider credentials "cloudflare" s)))
          (λ cred e.
            let (hit, here) =
              law.first_sound (λ c. c.provider == "cloudflare") s cred
                (success-or_zero zero_credential cred _ (loaded-ok _ cred e)) in
            ((eq_iff cred.provider "cloudflare").0 hit, here))
