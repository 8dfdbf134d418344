-- ===== src/Examples/Dns.antt =====
-- The Cloudflare client and the DNS requests at concrete inputs.
use mathlib.Core.Path.{subst}
use ashan_frp.Base.{ℕ, ◌≡◌, refl, String, true, false, Option, some, none, List, [], ◌∷◌, arith}
use ashan_frp.Base.Int.{pos}
use ashan_frp.Base.Result.{Result, ok, failed}
use ashan_frp.Base.Text.{
  to_upper, trim_space, trim_left, trim_right, to_lower, after, contains, replace_all, replace_from,
  trim_right_step,
}
use ashan_frp.Domain.Credential.{UpstreamCredential, zero_credential}
use ashan_frp.Cloudflare.Answer.{
  HttpAnswer, answered, unread, read_answer, read_status, read_envelope, status_error,
}
use ashan_frp.Cloudflare.Payload.{DnsRecordInput, CreateRecordReq, record_payload, can_be_proxied}
use ashan_frp.Cloudflare.Payload.Valid.{valid_result, record_payload-valid}
use ashan_frp.Cloudflare.Paging.{Page, list_pages, collect, list_pages-collect}
use ashan_frp.Cloudflare.Client.{Client, Api, DnsRecord, get_record, ask_zone, resolve_zone_id}
use ashan_frp.Http.Request.{Request}
use ashan_frp.Http.Dns.{
  DnsWorld, starts, update_dns, delete_dns, claim_dns, is_managed_comment, claim_comment,
  unclaim_comment,
}
use ashan_frp.Http.Dns.Client.{dns_client, dns_factory}
use ashan_frp.Http.Dns.Guard.{IsGuarded, update_dns-IsGuarded, delete_dns-IsGuarded}
use ashan_frp.Http.Dns.Claim.{IsRefused, claim_dns-IsRefused}
use ashan_frp.Examples.Database.{Database, no_rows, credentials, accounts, audits}

abbrev request : Request
request = record {
  account_id = "acc_1";
  account_name = "admin";
  request_id = "req_1";
  trace_id = "trc_1";
  client_ip = "192.0.2.1";
  user_agent = "curl";
}

abbrev verification : DnsRecord
verification = record {
  id = "rec_1";
  name = "example.org";
  kind = "TXT";
  content = "site-verification";
  proxied = false;
  comment = "";
  ttl = pos 1;
  priority = none;
}

abbrev success : {A : Type 0} → A → HttpAnswer A
success a = answered 200 (ok (record { success = true; errors = []; messages = []; result = ok a }))

abbrev put : CreateRecordReq → DnsRecord → DnsRecord
put p r = record r { content = p.content; comment = p.comment; ttl = p.ttl }

-- A zone of one record.
abbrev one_record : Api DnsRecord
one_record = record {
  zones_named = λ h name z. success ("0123456789abcdef0123456789abcdef" ∷ []);
  zones_page = λ h page z. unread "offline";
  records_page = λ h id page z. success (record { items = z ∷ []; total_pages = some (pos 1) });
  read_record = λ h zone id z. success z;
  post_record = λ h zone p z. (put p z, success (put p z));
  put_record = λ h zone id p z. (put p z, success (put p z));
  delete_record = λ h zone id z. (z, success tt);
}

abbrev input : DnsRecordInput
input = record {
  kind = "txt";
  name = "example.org";
  content = "site-verification";
  ttl = pos 1;
  proxied = some false;
  priority = none;
  caa = none;
}

bare : can_be_proxied (to_upper (trim_space "txt")) ≡ false
unfolding to_upper trim_space trim_left trim_right
bare = refl

record_payload-valid_example : valid_result (record_payload input "") ≡ true
record_payload-valid_example = record_payload-valid input ""

-- Two pages of one item each.
abbrev page_items : ℕ → List ℕ
page_items n = n ∷ []

abbrev two_pages : ℕ → Result (Page ℕ)
two_pages n = ok (record { items = page_items n; total_pages = some (pos 2) })

list_pages-collect_example : list_pages two_pages 5 ≡ some (ok (collect page_items 1 2))
list_pages-collect_example =
    list_pages-collect two_pages page_items 2 (λ n h. refl) (λ n. refl) 5 1 refl (omega arith)

abbrev credential : UpstreamCredential
credential = record zero_credential {
  id = "cred_1";
  provider = "cloudflare";
  identifier = "example.org";
  auth_method = "api_token";
  encrypted_secret = "sealed";
}

abbrev world : DnsWorld Database DnsRecord
world = record { db = (credentials.save credential no_rows).0; zone = verification }

abbrev unseal : String → Option String
unseal s = some "token"

update_dns-IsGuarded_example :
    IsGuarded credentials accounts audits unseal
      (dns_factory one_record 9)
      7
      request
      (trim_space "rec_1")
      verification
      (update_dns credentials accounts audits unseal
        (dns_factory one_record 9)
        7
        request
        "rec_1"
        (some input)
        world)
update_dns-IsGuarded_example =
    update_dns-IsGuarded credentials accounts audits unseal (dns_factory one_record 9) 7 request
      "rec_1" (some input) world

delete_dns-IsGuarded_example :
    IsGuarded credentials accounts audits unseal
      (dns_factory one_record 9)
      7
      request
      (trim_space "rec_1")
      verification
      (delete_dns credentials accounts audits unseal
        (dns_factory one_record 9)
        7
        request
        "rec_1"
        world)
delete_dns-IsGuarded_example =
    delete_dns-IsGuarded credentials accounts audits unseal (dns_factory one_record 9) 7 request
      "rec_1" world

ask_one :
    (resolved : Client × Result String) (r : DnsRecord)
    → (ask_zone one_record
        (λ c zone. read_answer "cloudflare get record" (success verification))
        resolved).1
      ≡ ok r
    → verification ≡ r
unfolding ask_zone read_answer read_status status_error read_envelope
ask_one (cl, failed e) r h = cc
ask_one (cl, ok zone) r h = cc

read_one :
    (cl : Client) (r : DnsRecord)
    → (get_record one_record (trim_space "rec_1") cl verification).1 ≡ ok r
    → verification ≡ r
unfolding get_record trim_space trim_left trim_right trim_right_step
read_one cl r h = ask_one (resolve_zone_id one_record cl verification) r h

read_verification :
    (cl : Client) (r : DnsRecord)
    → (dns_client one_record 9 cl).get_record (trim_space "rec_1") verification ≡ ok r
    → can_be_proxied (to_upper (trim_space r.kind)) ≡ false
unfolding dns_client trim_space to_upper
read_verification cl r e =
    subst (λ x. can_be_proxied (to_upper (trim_space x.kind)) ≡ false) (read_one cl r e) bare

claim_dns-IsRefused_example :
    IsRefused credentials accounts audits unseal one_record 9 7 request verification (
      claim_dns credentials accounts audits unseal
        (dns_factory one_record 9)
        7
        request
        "rec_1"
        world)
claim_dns-IsRefused_example =
    claim_dns-IsRefused credentials accounts audits unseal one_record 9 7 request "rec_1" world
      read_verification

-- A claim of a record with a comment of its own does not make it managed, and its release leaves
-- a part of what the claim wrote.
claim_run : is_managed_comment (claim_comment "mail") ≡ false
unfolding is_managed_comment starts claim_comment to_lower trim_space trim_left trim_right
    trim_right_step after contains
claim_run = refl

unclaim_run : unclaim_comment (claim_comment "mail") ≡ "mail ()"
unfolding unclaim_comment claim_comment trim_space trim_left trim_right trim_right_step replace_all
    replace_from contains
unclaim_run = refl
