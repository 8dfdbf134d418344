-- ===== src/Http/Dns/Claim.antt =====
-- Which records can be claimed.
use mathlib.Core.Path.{subst}
use ashan_frp.Base.{ℕ, String, ◌≡◌, refl, sym, true, false, Option, none}
use ashan_frp.Base.Result.{Result, ok, failed, is_failed}
use ashan_frp.Base.Text.{trim_space, to_upper}
use ashan_frp.Domain.Account.{Account, AuditLog}
use ashan_frp.Domain.Credential.{UpstreamCredential}
use ashan_frp.Repository.{Table}
use ashan_frp.Cloudflare.Payload.{can_be_proxied}
use ashan_frp.Cloudflare.Client.{DnsRecord, Api, Client, new_client_with_credentials}
use ashan_frp.Cloudflare.Client.Resolved.{update_dns_record-IsUnsent}
use ashan_frp.Http.Request.{Request, Reply}
use ashan_frp.Http.Dns.{
  DnsWorld, finish, same_record, recommented, claim_comment, claim_dns, claim_record,
  respond_credential_error, mark_failed, make_client,
}
use ashan_frp.Http.Dns.Client.{dns_client, dns_factory}
use ashan_frp.Http.Dns.Guard.{with_client-elim}

module _ {S Z : Type 0} (credentials : Table S UpstreamCredential) (accounts : Table S Account)
    (audits : Table S AuditLog) (decrypt : String → Option String) (api : Api Z) (fuel now : ℕ)
    (c : Request) where
  -- Cloudflare is left alone, and no record is answered.
  abbrev pub IsRefused : Z → Reply (DnsWorld S Z) DnsRecord → Type 0
  IsRefused zone r = (r.db.zone ≡ zone) × (r.body ≡ none)

  finish-IsRefused :
      (what action : String) (status : ℕ) (cred : UpstreamCredential) (w : DnsWorld S Z)
      (r : Z × Result DnsRecord)
      → (r.0 ≡ w.zone)
      → is_failed r.1 ≡ true
      → IsRefused w.zone (
          finish credentials accounts audits decrypt
            (dns_factory api fuel)
            now
            c
            what
            action
            status
            cred
            w
            r)
  unfolding finish respond_credential_error mark_failed
  finish-IsRefused what action status cred w (z, failed e) same bad = (same, refl)
  finish-IsRefused what action status cred w (z, ok r) same bad = cc

  recommented-IsRefused :
      (comment : String → String) (what action id : String) (client : Client)
      (cred : UpstreamCredential) (read : Result DnsRecord) (w : DnsWorld S Z)
      → ((r : DnsRecord) → read ≡ ok r → can_be_proxied (to_upper (trim_space r.kind)) ≡ false)
      → IsRefused w.zone (
          recommented credentials accounts audits decrypt
            (dns_factory api fuel)
            now
            c
            comment
            what
            action
            id
            (dns_client api fuel client)
            cred
            read
            w)
  unfolding recommented respond_credential_error mark_failed same_record dns_client
  recommented-IsRefused comment what action id client cred (failed e) w bare = (refl, refl)
  recommented-IsRefused comment what action id client cred (ok r) w bare =
      let unsent =
        update_dns_record-IsUnsent api id (same_record r) (comment r.comment) client w.zone refl
          (bare r refl) in
      finish-IsRefused what action 200 cred w _ unsent.0 unsent.2

  abbrev pub Bare : String → Z → Type 0
  Bare id zone =
      (cl : Client) (r : DnsRecord)
      → (dns_client api fuel cl).get_record id zone ≡ ok r
      → can_be_proxied (to_upper (trim_space r.kind)) ≡ false

  claim_record-IsRefused :
      (id secret : String) (cred cred1 : UpstreamCredential) (w : DnsWorld S Z)
      → Bare id w.zone
      → IsRefused w.zone (
          claim_record credentials accounts audits decrypt
            (dns_factory api fuel)
            now
            c
            id
            (make_client credentials accounts audits decrypt
              (dns_factory api fuel)
              now
              c
              cred
              secret)
            cred1
            w)
  unfolding claim_record make_client dns_factory
  claim_record-IsRefused id secret cred cred1 w bare =
      recommented-IsRefused claim_comment "Cloudflare DNS claim failed" "cloudflare_dns.claim" id
        (new_client_with_credentials _ _) cred1 _ w (bare _)

  -- A claim always hands on a proxy setting, and the client refuses one for a type that cannot be
  -- proxied. So a record of such a type, TXT, MX or CAA, is never claimed: Cloudflare is left alone,
  -- and the answer is an error, whatever the credential and the state of the zone.
  pub claim_dns-IsRefused :
      (id : String) (w : DnsWorld S Z)
      → Bare (trim_space id) w.zone
      → IsRefused w.zone
          (claim_dns credentials accounts audits decrypt (dns_factory api fuel) now c id w)
  unfolding claim_dns
  claim_dns-IsRefused id w bare =
      with_client-elim credentials accounts audits decrypt (dns_factory api fuel) now c
        (IsRefused w.zone)
        (claim_record credentials accounts audits decrypt (dns_factory api fuel) now c
          (trim_space id))
        w (λ r same empty. (same, empty))
        (λ cred secret cred1 w1 same.
          subst
            (λ z. IsRefused z (
              claim_record credentials accounts audits decrypt (dns_factory api fuel) now c
                (trim_space id)
                (make_client credentials accounts audits decrypt (dns_factory api fuel) now c cred
                  secret)
                cred1 w1))
            same
            (claim_record-IsRefused (trim_space id) secret cred cred1 w1
              (subst (Bare (trim_space id)) (sym same) bare)))
