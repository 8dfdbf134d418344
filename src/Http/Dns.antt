-- ===== src/Http/Dns.antt =====
-- frp-backend/internal/http/handlers/dns.go: the requests on the DNS records of the zone, over the
-- interface `cloudflareDNSClient`.
pub mod Client
pub mod Guard
pub mod Claim
use ashan_frp.Base.{
  ℕ, zero, suc, ◌-◌, leb, String, ◌<>◌, Bool, true, false, not, ◌&&◌, ◌||◌, Option, none, some,
  List, [], ◌∷◌,
}
use ashan_frp.Base.{◌==◌, string_eq, if◌then◌else◌}
use ashan_frp.Base.Int.{ℤ, pos, negsuc}
use ashan_frp.Base.Result.{Result, ok, failed}
use ashan_frp.Base.Text.{trim_space, to_lower, contains, after, bytes, quote, replace_all}
use ashan_frp.Domain.Account.{Account, AuditLog}
use ashan_frp.Domain.Credential.{UpstreamCredential, zero_credential}
use ashan_frp.Repository.{Table, Lookup, or_zero}
use ashan_frp.Repository.Credentials.{find_credential_by_provider}
use ashan_frp.Repository.Accounts.{find_account_by_id}
use ashan_frp.Cloudflare.Payload.{DnsRecordInput}
use ashan_frp.Cloudflare.Client.{
  DnsRecord, Credentials, auth_method_api_token, auth_method_global_api_key,
}
use ashan_frp.Http.Request.{Request, Reply, without_body, with_body, audit_entry, name_of}
use ashan_frp.Http.Response.{Response, respond, refuse}

-- `cloudflareDNSClient` over what Cloudflare keeps, with the `ListZones` that the handler asks for:
-- the identifier and the name of each zone, none where it fails.
pub record DnsClient (Z : Type 0) : Type 0 where
  pub list_records : Z → Result (List DnsRecord)
  pub get_record : String → Z → Result DnsRecord
  pub create_dns_record : DnsRecordInput → String → Z → Z × Result DnsRecord
  pub update_dns_record : String → DnsRecordInput → String → Z → Z × Result DnsRecord
  pub delete_record : String → Z → Z × Result Unit
  pub list_zones : Z → Option (List (String × String))

-- The database and Cloudflare.
pub record DnsWorld (S Z : Type 0) : Type 0 where
  pub db : S
  pub zone : Z

abbrev pub managed_comment : String
managed_comment = "ashan-frp managed: manual"

unfoldable pub starts : String → String → Bool
unfolding after
starts p s = elim (after p s) [ none ↦ false | some rest ↦ true ]

-- `isManagedComment`.
unfoldable pub is_managed_comment : String → Bool
unfolding starts
is_managed_comment comment =
    let c = to_lower (trim_space comment) in starts "ashan-frp managed:" c || contains c "1panel"

-- The comment that `Claim` writes.
unfoldable pub claim_comment : String → String
claim_comment comment =
    if not (comment == "") && not (contains comment "ashan-frp managed")
    then comment <> " (ashan-frp managed: manual)"
    else managed_comment

-- The comment that `Unclaim` writes.
unfoldable pub unclaim_comment : String → String
unfolding replace_all
unclaim_comment comment = trim_space (
    replace_all "(ashan-frp managed: manual)" ""
      (trim_space (replace_all managed_comment "" comment)))

-- The record as it is, as an input: its proxy setting is always given, and neither a priority nor
-- the data of a CAA record.
unfoldable pub same_record : DnsRecord → DnsRecordInput
same_record r = record {
  kind = r.kind;
  name = r.name;
  content = r.content;
  ttl = r.ttl;
  proxied = some r.proxied;
  priority = none;
  caa = none;
}

-- The name of the zone with this identifier.
unfoldable pub zone_name : String → List (String × String) → Option String
zone_name id [] = none
zone_name id ((k, name) ∷ zs) = let rest = zone_name id zs in if k == id then some name else rest

module _ {S Z : Type 0} (credentials : Table S UpstreamCredential) (accounts : Table S Account)
    (audits : Table S AuditLog) (decrypt : String → Option String)
    (factory : Credentials → String → DnsClient Z) (now : ℕ) (c : Request) where
  abbrev pub upsert : UpstreamCredential → DnsWorld S Z → DnsWorld S Z
  upsert cred w = record w { db = (credentials.save cred w.db).0 }

  -- `markCredential` for a success and for an error.
  unfoldable pub mark_verified : UpstreamCredential → DnsWorld S Z → DnsWorld S Z
  mark_verified cred w =
      upsert (record cred { updated_at = now; last_verified_at = some now; last_error = "" }) w

  unfoldable pub mark_failed : UpstreamCredential → String → DnsWorld S Z → DnsWorld S Z
  mark_failed cred e w = upsert (record cred { updated_at = now; last_error = e }) w

  -- `respondCredentialError`.
  unfoldable pub respond_credential_error :
      {A : Type 0} → UpstreamCredential → String → DnsWorld S Z → Reply (DnsWorld S Z) A
  unfolding mark_failed
  respond_credential_error cred e w =
      without_body (mark_failed cred e w)
        (refuse (if contains e "must be configured" then 412 else 502) "CLOUDFLARE_DNS_FAILED")

  -- The client of the credential: that of `clientFactory` has the method `api_token`.
  unfoldable pub make_client : UpstreamCredential → String → DnsClient Z
  make_client cred secret =
      let zone = if cred.zone_id == "" then cred.identifier else cred.zone_id in
      factory
        (if cred.auth_method == auth_method_global_api_key
          then (record {
            auth_method = cred.auth_method;
            secret = secret;
            email = cred.account_email;
          })
          else (record { auth_method = auth_method_api_token; secret = secret; email = "" }))
        zone

  renamed : UpstreamCredential → Option String → DnsWorld S Z → UpstreamCredential × DnsWorld S Z
  renamed cred none w = (cred, w)
  renamed cred (some name) w =
      let cred' = record cred { identifier = name } in (cred', upsert cred' w)

  zone_of : UpstreamCredential → Option (List (String × String)) → Option String
  unfolding zone_name
  zone_of cred none = none
  zone_of cred (some zs) = zone_name cred.identifier zs

  -- A zone that is stored by its identifier is renamed.
  unfoldable pub name_zone :
      UpstreamCredential → DnsClient Z → DnsWorld S Z → UpstreamCredential × DnsWorld S Z
  unfolding renamed zone_of
  name_zone cred client w =
      if not (contains cred.identifier ".") && leb 20 (bytes cred.identifier)
      then renamed cred (zone_of cred (client.list_zones w.zone)) w
      else (cred, w)

  -- What a handler does with a client and its credential.
  abbrev pub Handler : Type 0 → Type 0
  Handler A = DnsClient Z → UpstreamCredential → DnsWorld S Z → Reply (DnsWorld S Z) A

  opened :
      {A : Type 0}
      → UpstreamCredential
      → Handler A
      → Option String
      → DnsWorld S Z
      → Reply (DnsWorld S Z) A
  unfolding respond_credential_error name_zone make_client
  opened cred k none w = respond_credential_error cred "Cloudflare credential could not be read" w
  opened cred k (some secret) w =
      let client = make_client cred secret in
      let (cred', w') = name_zone cred client w in k client cred' w'

  -- By the credential that was found.
  unfoldable pub with_credential :
      {A : Type 0} → Handler A → Lookup UpstreamCredential → DnsWorld S Z → Reply (DnsWorld S Z) A
  unfolding opened respond_credential_error
  with_credential k found w = elim found.pointer [
    | none ↦ without_body w (refuse 412 "CLOUDFLARE_DNS_FAILED")
    | some cred ↦
        if found.failed || cred.encrypted_secret == "" || trim_space cred.identifier == ""
        then respond_credential_error cred "Cloudflare API Token and Zone must be configured first"
            w
        else opened cred k (decrypt cred.encrypted_secret) w
  ]

  -- `client`, and what a handler does after it.
  unfoldable pub with_client : {A : Type 0} → Handler A → DnsWorld S Z → Reply (DnsWorld S Z) A
  unfolding with_credential find_credential_by_provider
  with_client k w = with_credential k (find_credential_by_provider credentials "cloudflare" w.db) w

  -- `audit`.
  unfoldable pub audit : String → DnsRecord → DnsWorld S Z → DnsWorld S Z
  audit action r w =
      let name = name_of (find_account_by_id accounts c.account_id w.db).pointer in
      let detail = "{\"type\":" <> (quote r.kind <> (",\"name\":" <> (quote r.name <> "}"))) in
      let entry = record (audit_entry c name action "cloudflare_dns" r.id) {
        detail_json = detail;
      } in
      record w { db = (audits.create entry w.db).0 }

  -- The end of a write: what Cloudflare answers, and what is kept of it.
  unfoldable pub finish :
      String
      → String
      → ℕ
      → UpstreamCredential
      → DnsWorld S Z
      → Z × Result DnsRecord
      → Reply (DnsWorld S Z) DnsRecord
  unfolding respond_credential_error mark_verified audit
  finish what action status cred w (z, failed e) =
      respond_credential_error cred (what <> (": " <> e)) (record w { zone = z })
  finish what action status cred w (z, ok r) =
      with_body (audit action r (mark_verified cred (record w { zone = z }))) (respond status) r

  listed :
      UpstreamCredential
      → Result (List DnsRecord)
      → DnsWorld S Z
      → Reply (DnsWorld S Z) (List DnsRecord)
  unfolding respond_credential_error mark_verified
  listed cred (failed e) w = respond_credential_error cred ("Cloudflare DNS read failed: " <> e) w
  listed cred (ok rs) w = with_body (mark_verified cred w) (respond 200) rs

  -- `List`.
  unfoldable pub list_dns : DnsWorld S Z → Reply (DnsWorld S Z) (List DnsRecord)
  unfolding with_client listed
  list_dns w = with_client (λ client cred w1. listed cred (client.list_records w1.zone) w1) w

  -- `Create`; none is a body that does not bind.
  unfoldable pub create_dns : Option DnsRecordInput → DnsWorld S Z → Reply (DnsWorld S Z) DnsRecord
  unfolding with_client finish
  create_dns none w = without_body w (refuse 400 "INVALID_REQUEST")
  create_dns (some input) w =
      with_client
        (λ client cred w1.
          finish "Cloudflare DNS create failed" "cloudflare_dns.create" 201 cred w1
            (client.create_dns_record input managed_comment w1.zone))
        w

  -- A record that was read, and what is done with it if it is managed.
  unfoldable pub guard :
      {A : Type 0}
      → String
      → UpstreamCredential
      → (DnsRecord → Reply (DnsWorld S Z) A)
      → Result DnsRecord
      → DnsWorld S Z
      → Reply (DnsWorld S Z) A
  unfolding respond_credential_error is_managed_comment
  guard what cred k (failed e) w = respond_credential_error cred (what <> (": " <> e)) w
  guard what cred k (ok current) w =
      if is_managed_comment current.comment
      then k current
      else without_body w (refuse 403 "ERR_NOT_MANAGED")

  -- `Update`. The clients of the program return no record only with an error.
  unfoldable pub update_managed : String → DnsRecordInput → Handler DnsRecord
  unfolding guard finish
  update_managed id input client cred w =
      guard "Cloudflare DNS read before update failed" cred
        (λ current.
          finish "Cloudflare DNS update failed" "cloudflare_dns.update" 200 cred w
            (client.update_dns_record id input current.comment w.zone))
        (client.get_record id w.zone) w

  unfoldable pub update_dns :
      String → Option DnsRecordInput → DnsWorld S Z → Reply (DnsWorld S Z) DnsRecord
  unfolding with_client update_managed
  update_dns id none w = without_body w (refuse 400 "INVALID_REQUEST")
  update_dns id (some input) w = with_client (update_managed (trim_space id) input) w

  -- `Delete`: the record that is answered is the one that was read.
  deleted : DnsRecord → Z × Result Unit → Z × Result DnsRecord
  deleted current (z, failed e) = (z, failed e)
  deleted current (z, ok done) = (z, ok current)

  unfoldable pub delete_managed : String → Handler DnsRecord
  unfolding guard finish deleted
  delete_managed id client cred w =
      guard "Cloudflare DNS read before delete failed" cred
        (λ current.
          finish "Cloudflare DNS delete failed" "cloudflare_dns.delete" 200 cred w
            (deleted current (client.delete_record id w.zone)))
        (client.get_record id w.zone) w

  unfoldable pub delete_dns : String → DnsWorld S Z → Reply (DnsWorld S Z) DnsRecord
  unfolding with_client delete_managed
  delete_dns id w =
      if trim_space id == ""
      then without_body w (refuse 400 "INVALID_REQUEST")
      else with_client (delete_managed (trim_space id)) w

  recommented :
      (String → String)
      → String
      → String
      → String
      → DnsClient Z
      → UpstreamCredential
      → Result DnsRecord
      → DnsWorld S Z
      → Reply (DnsWorld S Z) DnsRecord
  unfolding respond_credential_error finish same_record
  recommented comment what action id client cred (failed e) w =
      respond_credential_error cred ("Cloudflare DNS record read failed: " <> e) w
  recommented comment what action id client cred (ok current) w =
      finish what action 200 cred w
        (client.update_dns_record id (same_record current) (comment current.comment) w.zone)

  -- `Claim` and `Unclaim`.
  unfoldable pub claim_record : String → Handler DnsRecord
  unfolding recommented claim_comment
  claim_record id client cred w =
      recommented claim_comment "Cloudflare DNS claim failed" "cloudflare_dns.claim" id client cred
        (client.get_record id w.zone) w

  unfoldable pub claim_dns : String → DnsWorld S Z → Reply (DnsWorld S Z) DnsRecord
  unfolding with_client claim_record
  claim_dns id w = with_client (claim_record (trim_space id)) w

  unfoldable pub unclaim_record : String → Handler DnsRecord
  unfolding recommented unclaim_comment
  unclaim_record id client cred w =
      recommented unclaim_comment "Cloudflare DNS unclaim failed" "cloudflare_dns.unclaim" id client
        cred (client.get_record id w.zone) w

  unfoldable pub unclaim_dns : String → DnsWorld S Z → Reply (DnsWorld S Z) DnsRecord
  unfolding with_client unclaim_record
  unclaim_dns id w = with_client (unclaim_record (trim_space id)) w
