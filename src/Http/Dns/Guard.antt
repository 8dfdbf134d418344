-- ===== src/Http/Dns/Guard.antt =====
-- Which records the DNS requests change.
use mathlib.Core.Path.{subst}
use ashan_frp.Base.{
  not, ◌&&◌, leb, ℕ, String, ◌≡◌, refl, Bool, true, false, ◌||◌, Option, none, some, ◌⊎◌, inl, inr,
  Bool-cases,
}
use ashan_frp.Base.{◌==◌, string_eq, if◌then◌else◌}
use ashan_frp.Base.Result.{Result, ok, failed}
use ashan_frp.Base.Text.{trim_space, contains, bytes}
use ashan_frp.Domain.Account.{Account, AuditLog}
use ashan_frp.Domain.Credential.{UpstreamCredential, zero_credential}
use ashan_frp.Repository.{Table, or_zero}
use ashan_frp.Repository.Credentials.{find_credential_by_provider}
use ashan_frp.Cloudflare.Payload.{DnsRecordInput}
use ashan_frp.Cloudflare.Client.{DnsRecord, Credentials}
use ashan_frp.Http.Request.{Request, Reply}
use ashan_frp.Http.Dns.{
  DnsClient, DnsWorld, is_managed_comment, make_client, name_zone, with_client, with_credential,
  guard, finish, update_managed, update_dns, delete_managed, deleted, delete_dns,
  respond_credential_error, mark_failed, renamed, opened, Handler,
}

module _ {S Z : Type 0} (credentials : Table S UpstreamCredential) (accounts : Table S Account)
    (audits : Table S AuditLog) (decrypt : String → Option String)
    (factory : Credentials → String → DnsClient Z) (now : ℕ) (c : Request) where
  renamed-zone :
      (cred : UpstreamCredential) (name : Option String) (w : DnsWorld S Z)
      → (renamed credentials accounts audits decrypt factory now c cred name w).1.zone ≡ w.zone
  unfolding renamed
  renamed-zone cred none w = refl
  renamed-zone cred (some name) w = refl

  name_zone-zone :
      (cred : UpstreamCredential) (client : DnsClient Z) (w : DnsWorld S Z)
      → (name_zone credentials accounts audits decrypt factory now c cred client w).1.zone ≡ w.zone
  unfolding name_zone
  name_zone-zone cred client w =
      elim (Bool-cases (not (contains cred.identifier ".") && leb 20 (bytes cred.identifier))) [
        | inl e ↦ rw e (renamed-zone cred _ w)
        | inr e ↦ rw e refl
      ]

  abbrev pub Answer : Type 0 → Type 0
  Answer A = Reply (DnsWorld S Z) A

  -- The client that the credential with this secret gives.
  abbrev pub Given : UpstreamCredential → String → DnsClient Z
  Given cred secret = make_client credentials accounts audits decrypt factory now c cred secret

  opened-elim :
      {A : Type 0} (P : Answer A → Type 0)
      (k : Handler credentials accounts audits decrypt factory now c A) (cred : UpstreamCredential)
      (secret : Option String) (w : DnsWorld S Z)
      → ((r : Answer A) → r.db.zone ≡ w.zone → r.body ≡ none → P r)
      → ((cred : UpstreamCredential) (secret : String) (cred1 : UpstreamCredential)
            (w1 : DnsWorld S Z)
          → w1.zone ≡ w.zone
          → P (k (Given cred secret) cred1 w1))
      → P (opened credentials accounts audits decrypt factory now c cred k secret w)
  unfolding opened respond_credential_error mark_failed
  opened-elim P k cred none w refused handled = refused _ refl refl
  opened-elim P k cred (some secret) w refused handled =
      handled cred secret _ _ (name_zone-zone cred (Given cred secret) w)

  if-elim :
      {A : Type 0} (P : Answer A → Type 0) (b : Bool) (r r' : Answer A)
      → P r
      → P r'
      → P (if b then r else r')
  if-elim P true r r' h h' = h
  if-elim P false r r' h h' = h'

  with_credential-elim :
      {A : Type 0} (P : Answer A → Type 0)
      (k : Handler credentials accounts audits decrypt factory now c A)
      (found : Option UpstreamCredential) (w : DnsWorld S Z)
      → ((r : Answer A) → r.db.zone ≡ w.zone → r.body ≡ none → P r)
      → ((cred : UpstreamCredential) (secret : String) (cred1 : UpstreamCredential)
            (w1 : DnsWorld S Z)
          → w1.zone ≡ w.zone
          → P (k (Given cred secret) cred1 w1))
      → P (
          with_credential credentials accounts audits decrypt factory now c k
            (or_zero zero_credential found)
            w)
  unfolding with_credential respond_credential_error mark_failed
  with_credential-elim P k none w refused handled = refused _ refl refl
  with_credential-elim P k (some cred) w refused handled =
      if-elim P (false || cred.encrypted_secret == "" || trim_space cred.identifier == "") _ _
        (refused _ refl refl)
        (opened-elim P k cred (decrypt cred.encrypted_secret) w refused handled)

  -- The answer of a request: a refusal that leaves the zone, or what the handler of a client answers.
  pub with_client-elim :
      {A : Type 0} (P : Answer A → Type 0)
      (k : Handler credentials accounts audits decrypt factory now c A) (w : DnsWorld S Z)
      → ((r : Answer A) → r.db.zone ≡ w.zone → r.body ≡ none → P r)
      → ((cred : UpstreamCredential) (secret : String) (cred1 : UpstreamCredential)
            (w1 : DnsWorld S Z)
          → w1.zone ≡ w.zone
          → P (k (Given cred secret) cred1 w1))
      → P (with_client credentials accounts audits decrypt factory now c k w)
  unfolding with_client find_credential_by_provider
  with_client-elim P k w refused handled =
      with_credential-elim P k (credentials.first (λ x. x.provider == "cloudflare") w.db) w refused
        handled

  -- The zone is as it was, or the record was read before and is managed.
  abbrev pub IsGuarded : String → Z → Answer DnsRecord → Type 0
  IsGuarded id zone r =
      (r.db.zone ≡ zone)
      ⊎ ((cred : UpstreamCredential) × (secret : String) × (current : DnsRecord) × ((Given cred
                secret).get_record
              id zone
            ≡ ok current)
          × (is_managed_comment current.comment ≡ true))

  guard-IsGuarded :
      (id what : String) (cred cred1 : UpstreamCredential) (secret : String)
      (k : DnsRecord → Answer DnsRecord) (o : Result DnsRecord) (w : DnsWorld S Z)
      → (Given cred secret).get_record id w.zone ≡ o
      → IsGuarded id w.zone
          (guard credentials accounts audits decrypt factory now c what cred1 k o w)
  unfolding guard respond_credential_error mark_failed
  guard-IsGuarded id what cred cred1 secret k (failed e) w here = inl refl
  guard-IsGuarded id what cred cred1 secret k (ok current) w here =
      elim (Bool-cases (is_managed_comment current.comment)) [
        | inl managed ↦ inr (cred, secret, current, here, managed)
        | inr native ↦ rw native (inl refl)
      ]

  update_managed-IsGuarded :
      (id : String) (input : DnsRecordInput) (cred cred1 : UpstreamCredential) (secret : String)
      (w : DnsWorld S Z)
      → IsGuarded id w.zone (
          update_managed credentials accounts audits decrypt factory now c id input
            (Given cred secret)
            cred1
            w)
  unfolding update_managed
  update_managed-IsGuarded id input cred cred1 secret w =
      guard-IsGuarded id "Cloudflare DNS read before update failed" cred cred1 secret
        (λ current.
          finish credentials accounts audits decrypt factory now c "Cloudflare DNS update failed"
            "cloudflare_dns.update" 200 cred1 w
            ((Given cred secret).update_dns_record id input current.comment w.zone))
        ((Given cred secret).get_record id w.zone) w refl

  delete_managed-IsGuarded :
      (id : String) (cred cred1 : UpstreamCredential) (secret : String) (w : DnsWorld S Z)
      → IsGuarded id w.zone (
          delete_managed credentials accounts audits decrypt factory now c id
            (Given cred secret)
            cred1
            w)
  unfolding delete_managed
  delete_managed-IsGuarded id cred cred1 secret w =
      guard-IsGuarded id "Cloudflare DNS read before delete failed" cred cred1 secret
        (λ current.
          finish credentials accounts audits decrypt factory now c "Cloudflare DNS delete failed"
            "cloudflare_dns.delete" 200 cred1 w
            (deleted credentials accounts audits decrypt factory now c current
              ((Given cred secret).delete_record id w.zone)))
        ((Given cred secret).get_record id w.zone) w refl

  -- A request to update a DNS record changes nothing at Cloudflare unless the record has been read
  -- and its comment is that of a managed record.
  pub update_dns-IsGuarded :
      (id : String) (input : Option DnsRecordInput) (w : DnsWorld S Z)
      → IsGuarded
          (trim_space id)
          w.zone
          (update_dns credentials accounts audits decrypt factory now c id input w)
  unfolding update_dns
  update_dns-IsGuarded id none w = inl refl
  update_dns-IsGuarded id (some input) w =
      with_client-elim (IsGuarded (trim_space id) w.zone)
        (update_managed credentials accounts audits decrypt factory now c (trim_space id) input) w
        (λ r same e. inl same)
        (λ cred secret cred1 w1 same.
          subst
            (λ z. IsGuarded (trim_space id) z (
              update_managed credentials accounts audits decrypt factory now c (trim_space id) input
                (Given cred secret) cred1 w1))
            same (update_managed-IsGuarded (trim_space id) input cred cred1 secret w1))

  -- A request to delete a DNS record changes nothing at Cloudflare unless the record has been read
  -- and its comment is that of a managed record.
  pub delete_dns-IsGuarded :
      (id : String) (w : DnsWorld S Z)
      → IsGuarded
          (trim_space id)
          w.zone
          (delete_dns credentials accounts audits decrypt factory now c id w)
  unfolding delete_dns
  delete_dns-IsGuarded id w =
      if-elim (IsGuarded (trim_space id) w.zone) (trim_space id == "") _ _ (inl refl) (
        with_client-elim (IsGuarded (trim_space id) w.zone)
          (delete_managed credentials accounts audits decrypt factory now c (trim_space id)) w
          (λ r same e. inl same)
          (λ cred secret cred1 w1 same.
            subst
              (λ z. IsGuarded (trim_space id) z (
                delete_managed credentials accounts audits decrypt factory now c (trim_space id)
                  (Given cred secret) cred1 w1))
              same (delete_managed-IsGuarded (trim_space id) cred cred1 secret w1)))
