-- ===== src/Cloudflare/Payload.antt =====
-- frp-backend/internal/integration/cloudflare/client.go: `recordPayload`, which DNS records the
-- client writes.
pub mod Valid
use ashan_frp.Base.{ℕ, String, ◌<>◌, Bool, true, false, not, ◌&&◌, ◌||◌, Option, none, some}
use ashan_frp.Base.{◌==◌, string_eq, if◌then◌else◌}
use ashan_frp.Base.Int.{ℤ, pos, negsuc, lebℤ}
use ashan_frp.Base.Result.{Result, ok, failed}
use ashan_frp.Base.Text.{trim_space, to_upper, quote}

pub record CaaRecordData : Type 0 where
  pub flags : ℤ
  pub tag : String
  pub value : String

pub record DnsRecordInput : Type 0 where
  pub kind : String
  pub name : String
  pub content : String
  pub ttl : ℤ
  pub proxied : Option Bool
  pub priority : Option ℤ
  pub caa : Option CaaRecordData

pub record CreateRecordReq : Type 0 where
  pub kind : String
  pub name : String
  pub content : String
  pub proxied : Bool
  pub ttl : ℤ
  pub comment : String
  pub priority : Option ℤ
  pub caa : Option CaaRecordData

-- `supportedDNSRecordType`.
unfoldable pub supported_dns_record_type : String → Bool
supported_dns_record_type t =
    t == "A" || t == "AAAA" || t == "CNAME" || t == "TXT" || t == "MX" || t == "CAA"

-- The types that Cloudflare can proxy.
abbrev pub can_be_proxied : String → Bool
can_be_proxied t = t == "A" || t == "AAAA" || t == "CNAME"

abbrev pub has_content : String → Bool
has_content t = can_be_proxied t || t == "TXT"

-- `n == 1` or `lo <= n && n <= hi`.
abbrev pub between : ℤ → ℤ → ℤ → Bool
between lo hi n = lebℤ lo n && lebℤ n hi

abbrev pub is_one : ℤ → Bool
is_one n = between (pos 1) (pos 1) n

abbrev pub or_false : Option Bool → Bool
or_false none = false
or_false (some b) = b

abbrev pub given : Option Bool → Bool
given none = false
given (some b) = true

abbrev pub is_priority : Option ℤ → Bool
is_priority none = false
is_priority (some p) = between (pos 0) (pos 65535) p

abbrev pub is_caa : Option CaaRecordData → Bool
is_caa none = false
is_caa (some d) =
    not (trim_space d.tag == "")
    && not (trim_space d.value == "")
    && between (pos 0) (pos 255) d.flags

abbrev pub trim_caa : Option CaaRecordData → Option CaaRecordData
trim_caa none = none
trim_caa (some d) =
    some (record { flags = d.flags; tag = trim_space d.tag; value = trim_space d.value })

-- The `switch` on the type, over the payload that has the fields all types share.
unfoldable pub type_payload : DnsRecordInput → CreateRecordReq → Result CreateRecordReq
type_payload input p =
    if has_content p.kind
    then (if trim_space input.content == ""
        then failed ("cloudflare " <> (p.kind <> " record content is required"))
        else ok (record p { content = trim_space input.content; proxied = or_false input.proxied }))
    else if p.kind == "MX"
    then (if trim_space input.content == "" || not (is_priority input.priority)
        then failed "cloudflare MX record requires content and a priority between 0 and 65535"
        else ok (record p { content = trim_space input.content; priority = input.priority }))
    else if p.kind == "CAA"
    then (if is_caa input.caa
        then ok (record p { caa = trim_caa input.caa })
        else failed "cloudflare CAA record requires flags (0-255), tag, and value")
    else ok p

-- `payload.TTL == 0` becomes 1, which the guard before it has made impossible.
abbrev pub default_ttl : ℤ → ℤ
default_ttl n = if between (pos 0) (pos 0) n then pos 1 else n

-- The fields that all types share.
abbrev pub common_payload : String → String → ℤ → String → CreateRecordReq
common_payload kind name ttl comment = record {
  kind = kind;
  name = name;
  content = "";
  proxied = false;
  ttl = default_ttl ttl;
  comment = comment;
  priority = none;
  caa = none;
}

-- `recordPayload`.
unfoldable pub record_payload : DnsRecordInput → String → Result CreateRecordReq
unfolding type_payload supported_dns_record_type
record_payload input comment =
    let kind = to_upper (trim_space input.kind) in
    let name = trim_space input.name in
    if name == ""
    then failed "cloudflare DNS record name is required"
    else if not (supported_dns_record_type kind)
    then failed ("cloudflare DNS record type " <> (quote kind <> " is not supported"))
    else if not (is_one input.ttl) && not (between (pos 60) (pos 86400) input.ttl)
    then failed "cloudflare DNS TTL must be automatic (1) or between 60 and 86400 seconds"
    else if given input.proxied && not (can_be_proxied kind)
    then failed ("cloudflare " <> (kind <> " record does not support proxy settings"))
    else type_payload input (common_payload kind name input.ttl comment)
