-- ===== src/Cloudflare/Client/Resolved.antt =====
-- What a client knows of its zone, and what it never writes.
use ashan_frp.Base.{String, ◌≡◌, refl, Bool, true, false}
use ashan_frp.Base.{◌==◌, string_eq, if◌then◌else◌}
use ashan_frp.Base.Result.{Result, ok, failed, is_failed}
use ashan_frp.Base.Text.{trim_space, to_upper}
use ashan_frp.Cloudflare.Answer.{HttpAnswer}
use ashan_frp.Cloudflare.Payload.{
  DnsRecordInput, CreateRecordReq, record_payload, given, can_be_proxied,
}
use ashan_frp.Cloudflare.Payload.Valid.{record_payload-is_failed}
use ashan_frp.Cloudflare.Client.{Client, Api, DnsRecord, write_record, update_dns_record, Headers}

module _ {Z : Type 0} (api : Api Z) where
  -- Nothing was sent.
  abbrev pub IsUnsent : Client → Z → (Z × Client × Result DnsRecord) → Type 0
  IsUnsent c z r = (r.0 ≡ z) × (r.1 ≡ c) × (is_failed r.2 ≡ true)

  write_record-IsUnsent :
      (send : Headers → String → CreateRecordReq → Z → Z × HttpAnswer DnsRecord) (op : String)
      (payload : Result CreateRecordReq) (c : Client) (z : Z)
      → is_failed payload ≡ true
      → IsUnsent c z (write_record api send op payload c z)
  unfolding write_record
  write_record-IsUnsent send op (failed e) c z h = (refl, refl, refl)
  write_record-IsUnsent send op (ok p) c z h = cc

  if-IsUnsent :
      (b : Bool) (c : Client) (z : Z) (r r' : Z × Client × Result DnsRecord)
      → IsUnsent c z r
      → IsUnsent c z r'
      → IsUnsent c z (if b then r else r')
  if-IsUnsent true c z r r' h h' = h
  if-IsUnsent false c z r r' h h' = h'

  -- An update of a record that cannot be proxied, with a proxy setting, is refused before anything
  -- is sent, whatever else it asks for.
  pub update_dns_record-IsUnsent :
      (record_id : String) (input : DnsRecordInput) (comment : String) (c : Client) (z : Z)
      → given input.proxied ≡ true
      → can_be_proxied (to_upper (trim_space input.kind)) ≡ false
      → IsUnsent c z (update_dns_record api record_id input comment c z)
  unfolding update_dns_record
  update_dns_record-IsUnsent record_id input comment c z proxied bare =
      if-IsUnsent (trim_space record_id == "") c z _ _ (refl, refl, refl)
        (write_record-IsUnsent (λ h zone. api.put_record h zone record_id)
          "cloudflare update record" (record_payload input comment) c z
          (record_payload-is_failed input comment proxied bare))
