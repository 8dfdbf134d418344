-- ===== src/Cloudflare/Payload/Valid.antt =====
-- What a payload that the client sends is like, and which records it refuses to write.
use ashan_frp.Base.{
  String, ◌≡◌, refl, Bool, true, false, not, ◌&&◌, ◌||◌, Option, none, some, arith,
}
use ashan_frp.Base.{◌==◌, string_eq, if◌then◌else◌, Bool-cases, inl, inr}
use ashan_frp.Base.Int.{ℤ, pos, negsuc}
use ashan_frp.Base.Result.{Result, ok, failed, is_failed}
use ashan_frp.Base.Text.{trim_space, to_upper}
use ashan_frp.Cloudflare.Payload.{
  DnsRecordInput, CaaRecordData, trim_caa, CreateRecordReq, supported_dns_record_type,
  can_be_proxied, has_content, between, is_one, is_priority, is_caa, given, or_false, type_payload,
  record_payload, default_ttl, common_payload,
}

-- The data of a CAA record: flags of a byte, a tag and a value.
abbrev pub has_data : Option CaaRecordData → Bool
has_data none = false
has_data (some d) = between (pos 0) (pos 255) d.flags && not (d.tag == "") && not (d.value == "")

-- A DNS record that Cloudflare accepts: a supported type, a name, a lifetime of 1 or of 60 to 86400,
-- a content, or the data of a CAA record, the priority of an MX record, and a proxy only where the
-- type allows one.
abbrev pub is_valid : CreateRecordReq → Bool
is_valid p =
    supported_dns_record_type p.kind
    && not (p.name == "")
    && (is_one p.ttl || between (pos 60) (pos 86400) p.ttl)
    && (can_be_proxied p.kind || not p.proxied)
    && (p.kind == "CAA" || not (p.content == ""))
    && (has_content p.kind || p.kind == "MX" || has_data p.caa)
    && (has_content p.kind || not (p.kind == "MX") || is_priority p.priority)

abbrev pub valid_result : Result CreateRecordReq → Bool
valid_result (failed e) = true
valid_result (ok p) = is_valid p

-- What `record_payload` has checked of a payload before the `switch`.
abbrev pub is_common : CreateRecordReq → Bool
is_common p =
    supported_dns_record_type p.kind
    && not (p.name == "")
    && (is_one p.ttl || between (pos 60) (pos 86400) p.ttl)
    && not p.proxied

or_false-given : (b : Option Bool) → (given b || not (or_false b)) ≡ true
or_false-given none = refl
or_false-given (some b) = refl

trim_caa-has_data : (o : Option CaaRecordData) → is_caa o ≡ true → has_data (trim_caa o) ≡ true
trim_caa-has_data none h = h
trim_caa-has_data (some d) h = ground (arith, h)

type_payload-valid :
    (input : DnsRecordInput) (p : CreateRecordReq)
    → is_common p ≡ true
    → (not (given input.proxied) || can_be_proxied p.kind) ≡ true
    → valid_result (type_payload input p) ≡ true
unfolding type_payload supported_dns_record_type
type_payload-valid input p common proxied = elim (Bool-cases (has_content p.kind)) [
  | inl content ↦ elim (Bool-cases (trim_space input.content == "")) [
    | inl empty ↦ rw (content, empty) refl
    | inr full ↦ let proxy = or_false-given input.proxied in rw (content, full) (ground arith)
  ]
  | inr bare ↦ elim (Bool-cases (p.kind == "MX")) [
    | inl mx ↦
        elim (Bool-cases (trim_space input.content == "" || not (is_priority input.priority))) [
          | inl bad ↦ rw (bare, mx, bad) refl
          | inr good ↦ rw (bare, mx, good) (ground arith)
        ]
    | inr other ↦ elim (Bool-cases (p.kind == "CAA")) [
      | inl caa ↦ elim (Bool-cases (is_caa input.caa)) [
        | inl good ↦
            let full = trim_caa-has_data input.caa good in
            rw (bare, other, caa, good) (ground arith)
        | inr bad ↦ rw (bare, other, caa, bad) refl
      ]
      | inr last ↦ absurd (ground (arith, common, bare, other, last))
    ]
  ]
]

guarded :
    (c : Bool) (e : String) (r : Result CreateRecordReq)
    → (c ≡ false → valid_result r ≡ true)
    → valid_result (if c then failed e else r) ≡ true
guarded true e r h = refl
guarded false e r h = h refl

default_ttl-valid :
    (n : ℤ)
    → (not (is_one n) && not (between (pos 60) (pos 86400) n)) ≡ false
    → (is_one (default_ttl n) || between (pos 60) (pos 86400) (default_ttl n)) ≡ true
default_ttl-valid (pos n) h = ground arith
default_ttl-valid (negsuc n) h = ground arith

-- Whatever the client sends to write a DNS record has a supported type, a name, a lifetime of 1 or of
-- 60 to 86400, a content or, for CAA, flags of a byte with a tag and a value, for MX a priority of 16
-- bits, and a proxy only where its type allows one.
pub record_payload-valid :
    (input : DnsRecordInput) (comment : String) → valid_result (record_payload input comment) ≡ true
unfolding record_payload
record_payload-valid input comment =
    let kind = to_upper (trim_space input.kind) in
    let name = trim_space input.name in
    guarded (name == "") _ _ (λ named.
      guarded (not (supported_dns_record_type kind)) _ _ (λ supported.
        guarded (not (is_one input.ttl) && not (between (pos 60) (pos 86400) input.ttl)) _ _
          (λ lives. guarded (given input.proxied && not (can_be_proxied kind)) _ _ (λ proxied.
            let ttl = default_ttl-valid input.ttl lives in
            type_payload-valid input (common_payload kind name input.ttl comment)
              (ground (arith, named, supported, ttl)) (ground (arith, proxied))))))

-- A record whose type cannot be proxied is never written with a proxy setting, off or on.
pub record_payload-is_failed :
    (input : DnsRecordInput) (comment : String)
    → given input.proxied ≡ true
    → can_be_proxied (to_upper (trim_space input.kind)) ≡ false
    → is_failed (record_payload input comment) ≡ true
unfolding record_payload
record_payload-is_failed input comment proxied bare =
    let kind = to_upper (trim_space input.kind) in
    let denied : (given input.proxied && not (can_be_proxied kind)) ≡ true =
      ground (arith, proxied, bare) in
    elim (Bool-cases (trim_space input.name == "")) [
      | inl e ↦ rw e refl
      | inr named ↦ elim (Bool-cases (not (supported_dns_record_type kind))) [
        | inl e ↦ rw (named, e) refl
        | inr known ↦
            elim (Bool-cases
              (not (is_one input.ttl) && not (between (pos 60) (pos 86400) input.ttl))) [
                | inl e ↦ rw (named, known, e) refl
                | inr lives ↦ rw (named, known, lives, denied) refl
              ]
      ]
    ]
