-- ===== src/Http/Settings/Verify/Passed.antt =====
-- What the steps of a verification have found, where they end without an error.
use ashan_frp.Base.{String, ◌≡◌, refl, Option, none, some, List, [], inl, inr, Bool-cases}
use ashan_frp.Base.{◌==◌, string_eq}
use ashan_frp.Base.Result.{Result, ok, failed}
use ashan_frp.Domain.Credential.{UpstreamCredential}
use ashan_frp.Cloudflare.Client.{Credentials, DnsRecord}
use ashan_frp.Http.Settings.{CloudflareVerifier}
use ashan_frp.Http.Settings.Verify.{
  VerificationStep, Run, step, proceed, then_run, loaded, decrypted, stored_client, read_step,
  resolve_step, verify_step, check_credential,
}

-- A run that has a value has one of its first part, and of the rest from that.
proceed-ok :
    {A B : Type 0} (before : List VerificationStep) (r : Result A) (k : A → Run B) (b : B)
    → (proceed before r k).value ≡ ok b
    → (a : A) × (r ≡ ok a) × ((k a).value ≡ ok b)
proceed-ok before (failed e) k b h = cc
proceed-ok before (ok a) k b h = (a, refl, h)

then_run-ok :
    {A B : Type 0} (r : Run A) (k : A → Run B) (b : B)
    → (then_run r k).value ≡ ok b
    → (a : A) × (r.value ≡ ok a) × ((k a).value ≡ ok b)
unfolding then_run
then_run-ok r k b h = proceed-ok r.steps r.value k b h

decrypted-ok : (o : Option String) (secret : String) → decrypted o ≡ ok secret → o ≡ some secret
unfolding decrypted
decrypted-ok none secret h = cc
decrypted-ok (some s) secret h = cc

pub loaded-ok :
    (o : Option UpstreamCredential) (cred : UpstreamCredential) → loaded o ≡ ok cred → o ≡ some cred
unfolding loaded
loaded-ok none cred h = cc
loaded-ok (some c) cred h = elim (Bool-cases (c.encrypted_secret == "")) [
  | inl bare ↦ cc
  | inr full ↦ cc
]

-- The three questions are answered.
abbrev pub IsAnswered : CloudflareVerifier → Type 0
IsAnswered v =
    (records : List DnsRecord) × (v.verify_token ≡ ok tt)
    × (v.resolve_zone ≡ ok tt)
    × (v.list_records ≡ ok records)

verify_step-IsAnswered : (v w : CloudflareVerifier) → (verify_step v).value ≡ ok w → IsAnswered v
unfolding verify_step resolve_step read_step
verify_step-IsAnswered v w h =
    let (a, verified, h1) =
      then_run-ok (step "cloudflare.credential.verify" v.verify_token) (λ done. resolve_step v) w
        h in
    let (b, resolved, h2) =
      then_run-ok (step "cloudflare.zone.resolve" v.resolve_zone) (λ done. read_step v) w h1 in
    let (rs, read, h3) =
      then_run-ok (step "cloudflare.dns.read" v.list_records)
        (λ rs. record { steps = []; value = ok v }) w h2 in
    (rs, verified, resolved, read)

module _ (client : Credentials → String → CloudflareVerifier)
    (decrypt : String → Option String) where
  -- The secret is decrypted, and the client for it answers each of the three questions.
  abbrev pub IsPassed : UpstreamCredential → Type 0
  IsPassed cred =
      (secret : String) × (decrypt cred.encrypted_secret ≡ some secret)
      × IsAnswered (stored_client client secret cred cred.identifier)

  pub check_credential-IsPassed :
      (cred : UpstreamCredential) (v : CloudflareVerifier)
      → (check_credential client decrypt cred).value ≡ ok v
      → IsPassed cred
  unfolding check_credential
  check_credential-IsPassed cred v h =
      let (secret, opened, h1) =
        then_run-ok (step "credential.decrypt" (decrypted (decrypt cred.encrypted_secret)))
          (λ secret. verify_step (stored_client client secret cred cred.identifier)) v h in
      (
        secret,
        decrypted-ok (decrypt cred.encrypted_secret) secret opened,
        verify_step-IsAnswered (stored_client client secret cred cred.identifier) v h1,
      )
