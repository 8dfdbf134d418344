-- ===== src/Http/Settings/Verify.antt =====
-- frp-backend/internal/http/handlers/settings.go: how the stored credential of Cloudflare is verified
-- again. An error is its text: `errors.Is` finds an error in those that wrap it, whose texts contain its
-- own.
pub mod Passed
pub mod Outcome
use ashan_frp.Base.{ℕ, String, Bool, true, false, ◌||◌, Option, none, some, List, [], ◌∷◌, ◌++◌}
use ashan_frp.Base.{◌==◌, string_eq, if◌then◌else◌}
use ashan_frp.Base.Result.{Result, ok, failed}
use ashan_frp.Base.Text.{contains, to_lower}
use ashan_frp.Domain.Account.{AuditLog}
use ashan_frp.Domain.Credential.{UpstreamCredential}
use ashan_frp.Domain.Settings.{Setting, CfZone, IntegrationSettings}
use ashan_frp.Cloudflare.Answer.{token_invalid}
use ashan_frp.Cloudflare.Client.{Credentials, DnsRecord, auth_method_api_token}
use ashan_frp.Repository.{Table, Lookup, success}
use ashan_frp.Repository.Credentials.{find_credential_by_provider}
use ashan_frp.Repository.Settings.{set_setting}
use ashan_frp.Http.Request.{Request, audit_entry}
use ashan_frp.Http.Settings.{CloudflareVerifier}

-- `cloudflareError`: the code of an error.
unfoldable pub cloudflare_error : Option String → String
cloudflare_error none = ""
cloudflare_error (some text) =
    if contains text token_invalid || contains text "http 401" || contains text "TOKEN_INVALID"
    then "CLOUDFLARE_TOKEN_INVALID"
    else if contains text "CLOUDFLARE_NOT_CONFIGURED: Cloudflare credential is not configured"
        || contains text "not configured"
    then "CLOUDFLARE_NOT_CONFIGURED"
    else if contains text "CLOUDFLARE_ZONE_NOT_FOUND: Cloudflare Zone not found"
        || contains text "zone not found"
    then "CLOUDFLARE_ZONE_NOT_FOUND"
    else if contains (to_lower text) "timeout"
    then "CLOUDFLARE_TIMEOUT"
    else "CLOUDFLARE_REQUEST_FAILED"

-- A step, with its error.
pub record VerificationStep : Type 0 where
  pub name : String
  pub error : Option String

-- What the steps come to: those that were run, and a value or the error of the last one.
pub record Run (A : Type 0) : Type 0 where
  pub steps : List VerificationStep
  pub value : Result A

abbrev pub error_of : {A : Type 0} → Result A → Option String
error_of (failed e) = some e
error_of (ok a) = none

-- `run`: one step.
abbrev pub step : {A : Type 0} → String → Result A → Run A
step name r = record { steps = record { name = name; error = error_of r } ∷ []; value = r }

abbrev pub with_steps : {B : Type 0} → List VerificationStep → Run B → Run B
with_steps before r = record { steps = before ++ r.steps; value = r.value }

abbrev pub proceed : {A B : Type 0} → List VerificationStep → Result A → (A → Run B) → Run B
proceed before (failed e) k = record { steps = before; value = failed e }
proceed before (ok a) k = with_steps before (k a)

-- The next step, where there is no error.
unfoldable pub then_run : {A B : Type 0} → Run A → (A → Run B) → Run B
then_run r k = proceed r.steps r.value k

-- The credential that the first step finds.
unfoldable pub loaded : Option UpstreamCredential → Result UpstreamCredential
loaded none = failed "CLOUDFLARE_NOT_CONFIGURED: Cloudflare API Token is not configured"
loaded (some c) =
    if c.encrypted_secret == ""
    then failed "CLOUDFLARE_NOT_CONFIGURED: Cloudflare API Token is not configured"
    else ok c

unfoldable pub decrypted : Option String → Result String
decrypted none =
    failed "CLOUDFLARE_CREDENTIAL_DECRYPT_FAILED: stored Cloudflare credential could not be read"
decrypted (some secret) = ok secret

-- `storedCloudflareClient`.
unfoldable pub stored_client :
    (Credentials → String → CloudflareVerifier)
    → String
    → UpstreamCredential
    → String
    → CloudflareVerifier
stored_client client secret c zone =
    if c.auth_method == "" || c.auth_method == auth_method_api_token
    then client (record { auth_method = auth_method_api_token; secret = secret; email = "" }) zone
    else client (record { auth_method = c.auth_method; secret = secret; email = c.account_email })
        zone

-- The three questions.
unfoldable pub read_step : CloudflareVerifier → Run CloudflareVerifier
unfolding then_run
read_step v =
    then_run (step "cloudflare.dns.read" v.list_records) (λ rs. record { steps = []; value = ok v })

unfoldable pub resolve_step : CloudflareVerifier → Run CloudflareVerifier
unfolding then_run read_step
resolve_step v = then_run (step "cloudflare.zone.resolve" v.resolve_zone) (λ done. read_step v)

unfoldable pub verify_step : CloudflareVerifier → Run CloudflareVerifier
unfolding then_run resolve_step
verify_step v =
    then_run (step "cloudflare.credential.verify" v.verify_token) (λ done. resolve_step v)

-- The steps of a credential that is loaded.
unfoldable pub check_credential :
    (Credentials → String → CloudflareVerifier)
    → (String → Option String)
    → UpstreamCredential
    → Run CloudflareVerifier
unfolding then_run decrypted stored_client verify_step
check_credential client decrypt c =
    then_run (step "credential.decrypt" (decrypted (decrypt c.encrypted_secret)))
      (λ secret. verify_step (stored_client client secret c c.identifier))

-- The name of the zone that the credential names.
unfoldable pub zone_called : String → List CfZone → Option String
zone_called identifier [] = none
zone_called identifier (z ∷ zs) =
    let rest = zone_called identifier zs in
    if z.id == identifier || z.name == identifier then some z.name else rest

abbrev pub zones_or_none : Result (List CfZone) → List CfZone
zones_or_none (failed e) = []
zones_or_none (ok zs) = zs

-- What a verification ends with: its error, its steps, and the reference of the credential.
pub record Verification : Type 0 where
  pub error : Option String
  pub steps : List VerificationStep
  pub credential_ref : String

abbrev pub or_default : {A : Type 0} → A → Option A → A
or_default d none = d
or_default d (some a) = a

module _ {S : Type 0} (credentials : Table S UpstreamCredential) (settings : Table S Setting)
    (audits : Table S AuditLog) (decrypt : String → Option String)
    (encode : IntegrationSettings → String) (parse : String → Option IntegrationSettings)
    (c : Request) (client : Credentials → String → CloudflareVerifier) where
  named : ℕ → String → Option IntegrationSettings → S → S
  unfolding set_setting
  named now name none s = s
  named now name (some i) s =
      (set_setting settings now "integrations"
        (encode (record i { cloudflare = record i.cloudflare { zone_name = name } })) s).0

  -- The name of the zone goes into the settings that are stored.
  rename_each : ℕ → String → List Setting → S → S
  unfolding named
  rename_each now name [] s = s
  rename_each now name (r ∷ rs) s =
      let renamed = rename_each now name rs (named now name (parse r.value_json) s) in
      let kept = rename_each now name rs s in if r.key == "integrations" then renamed else kept

  rename : ℕ → Option String → S → S
  unfolding rename_each
  rename now none s = s
  rename now (some name) s =
      rename_each now name (or_default [] (settings.find (λ r. true) (λ a b. false) none s)) s

  -- `auditVerification`.
  unfoldable pub audit_verification : UpstreamCredential → Option String → S → S
  audit_verification cred error s =
      let entry =
        audit_entry c c.account_name "cloudflare.credential.verify" "credential" cred.id in
      (audits.create
        (record entry { outcome = elim error [ none ↦ "success" | some e ↦ "failure" ] }) s).0

  -- The credential after its steps, and the settings.
  unfoldable pub settle :
      ℕ → UpstreamCredential → Result CloudflareVerifier → S → S × UpstreamCredential
  unfolding rename zone_called
  settle now cred (failed e) s =
      (s, record cred { updated_at = now; last_verified_at = none; last_error = e })
  settle now cred (ok v) s =
      let name = zone_called cred.identifier (zones_or_none v.list_zones) in
      (
        rename now name s,
        record cred {
          updated_at = now;
          last_verified_at = some now;
          last_error = "";
          identifier = or_default cred.identifier name;
        },
      )

  -- The error of the verification, once the credential is saved.
  abbrev pub saved_error : Option String → Bool → Option String
  saved_error (some e) saved = some e
  saved_error none true = none
  saved_error none false = some "CLOUDFLARE_STATUS_SAVE_FAILED: save verification status"

  unfoldable pub record_outcome :
      List VerificationStep → Option String → UpstreamCredential → S × Bool → S × Verification
  unfolding audit_verification
  record_outcome steps error cred (s, saved) = (
    audit_verification cred (saved_error error saved) s,
    record { error = saved_error error saved; steps = steps; credential_ref = cred.credential_ref },
  )

  with_checked : ℕ → UpstreamCredential → Run CloudflareVerifier → S → S × Verification
  unfolding settle record_outcome
  with_checked now cred r s =
      let (s', cred') = settle now cred r.value s in
      record_outcome r.steps (error_of r.value) cred' (credentials.save cred' s')

  with_loaded : ℕ → Result UpstreamCredential → S → S × Verification
  unfolding with_checked check_credential
  with_loaded now (failed e) s = (
    s,
    record {
      error = some e;
      steps = (step {A = Unit} "credential.load" (failed e)).steps;
      credential_ref = "";
    },
  )
  with_loaded now (ok cred) s =
      with_checked now cred
        (with_steps (step {A = Unit} "credential.load" (ok tt)).steps
          (check_credential client decrypt cred))
        s

  -- `verifyCloudflareCredential`.
  unfoldable pub verify_cloudflare_credential : ℕ → S → S × Verification
  unfolding with_loaded loaded find_credential_by_provider
  verify_cloudflare_credential now s =
      with_loaded now (loaded (success (find_credential_by_provider credentials "cloudflare" s))) s
