-- ===== src/Cloudflare/Client.antt =====
-- frp-backend/internal/integration/cloudflare/client.go: the client of one zone. The calls of the
-- API are parameters, each with the answer that the transport and the decoder give.
pub mod Resolved
pub mod Verify
use ashan_frp.Base.{
  ℕ, leb, String, ◌<>◌, Bool, true, false, not, ◌&&◌, Option, none, some, List, [], ◌∷◌, select,
}
use ashan_frp.Base.{◌==◌, string_eq, if◌then◌else◌}
use ashan_frp.Base.Int.{ℤ, pos}
use ashan_frp.Base.Result.{Result, ok, failed}
use ashan_frp.Base.Text.{trim_space, bytes, contains, after}
use ashan_frp.Cloudflare.Answer.{HttpAnswer, read_answer}
use ashan_frp.Cloudflare.Payload.{DnsRecordInput, CreateRecordReq, record_payload}
use ashan_frp.Cloudflare.Paging.{Page, list_pages}

abbrev pub auth_method_api_token : String
auth_method_api_token = "api_token"

abbrev pub auth_method_global_api_key : String
auth_method_global_api_key = "global_api_key"

pub record Credentials : Type 0 where
  pub auth_method : String
  pub secret : String
  pub email : String

starts : String → String → Bool
unfolding after
starts p s = elim (after p s) [ none ↦ false | some rest ↦ true ]

-- `AuthCandidates`.
unfoldable pub auth_candidates : String → String → List Credentials
unfolding starts
auth_candidates secret email =
    let s = trim_space secret in
    let e = trim_space email in
    let token : Credentials = record {
      auth_method = auth_method_api_token;
      secret = s;
      email = "";
    } in
    let key : Credentials = record {
      auth_method = auth_method_global_api_key;
      secret = s;
      email = e;
    } in
    if starts "cfut_" s
    then token ∷ []
    else if starts "cfk_" s
    then key ∷ []
    else if e == ""
    then token ∷ []
    else token ∷ key ∷ []

pub record Client : Type 0 where
  pub auth_method : String
  pub secret : String
  pub email : String
  pub api_token : String
  pub zone_name : String
  pub zone_id : String

-- `NewClientWithCredentials`.
unfoldable pub new_client_with_credentials : Credentials → String → Client
new_client_with_credentials c zone =
    let method = trim_space c.auth_method in
    record {
      auth_method = if method == "" then auth_method_api_token else method;
      secret = trim_space c.secret;
      email = trim_space c.email;
      api_token = trim_space c.secret;
      zone_name = trim_space zone;
      zone_id = trim_space zone;
    }

-- `NewClient`.
unfoldable pub new_client : String → String → Client
unfolding new_client_with_credentials
new_client api_token zone =
    new_client_with_credentials
      (record { auth_method = auth_method_api_token; secret = api_token; email = "" }) zone

unfoldable pub credential_secret : Client → String
credential_secret c = if c.secret == "" then c.api_token else c.secret

-- `headers`.
unfoldable pub headers : Client → List (String × String)
unfolding credential_secret
headers c =
    let secret = credential_secret c in
    if c.auth_method == auth_method_global_api_key
    then (("Content-Type", "application/json")
        ∷ ("X-Auth-Email", c.email)
        ∷ ("X-Auth-Key", secret)
        ∷ [])
    else (("Content-Type", "application/json") ∷ ("Authorization", "Bearer " <> secret) ∷ [])

pub record DnsRecord : Type 0 where
  pub id : String
  pub name : String
  pub kind : String
  pub content : String
  pub proxied : Bool
  pub comment : String
  pub ttl : ℤ
  pub priority : Option ℤ

abbrev Headers : Type 0
Headers = List (String × String)

-- The API over what Cloudflare keeps, `Z`: the identifiers of the zones with a name, a page of
-- all zones with their names, a page of the records of a zone, one record, and the requests that write and delete.
pub record Api (Z : Type 0) : Type 0 where
  pub zones_named : Headers → String → Z → HttpAnswer (List String)
  pub zones_page : Headers → ℕ → Z → HttpAnswer (Page (String × String))
  pub records_page : Headers → String → ℕ → Z → HttpAnswer (Page DnsRecord)
  pub read_record : Headers → String → String → Z → HttpAnswer DnsRecord
  pub post_record : Headers → String → CreateRecordReq → Z → Z × HttpAnswer DnsRecord
  pub put_record : Headers → String → String → CreateRecordReq → Z → Z × HttpAnswer DnsRecord
  pub delete_record : Headers → String → String → Z → Z × HttpAnswer Unit

-- A zone identifier, by its look.
abbrev pub is_zone_id : String → Bool
is_zone_id s = leb 20 (bytes (trim_space s)) && not (contains s ".")

first_zone : Client → Result (List String) → Client × Result String
first_zone c (failed e) = (c, failed e)
first_zone c (ok []) = (c, failed ("cloudflare zone not found: " <> c.zone_name))
first_zone c (ok (id ∷ ids)) = (record c { zone_id = id }, ok id)

module _ {Z : Type 0} (api : Api Z) where
  -- `resolveZoneID`, with the client after it.
  unfoldable pub resolve_zone_id : Client → Z → Client × Result String
  unfolding first_zone headers
  resolve_zone_id c z =
      if trim_space c.zone_id == ""
      then (c, failed "cloudflare zone is empty")
      else if is_zone_id c.zone_id
      then (c, ok c.zone_id)
      else if trim_space c.zone_name == ""
      then (c, ok c.zone_id)
      else first_zone c
          (read_answer "cloudflare list zones" (api.zones_named (headers c) c.zone_name z))

  -- A call in the zone of the client, once it is resolved.
  unfoldable pub in_zone :
      {A : Type 0}
      → (String → Z → Z × Result A)
      → Client × Result String
      → Z
      → Z × Client × Result A
  in_zone call (c, failed e) z = (z, c, failed e)
  in_zone call (c, ok zone) z = let (z', r) = call zone z in (z', c, r)

  -- `ListRecords`, with fuel for its pages; none is a loop that has not ended.
  unfoldable pub list_records : ℕ → Client → Z → Client × Option (Result (List DnsRecord))
  unfolding resolve_zone_id list_pages headers
  list_records fuel c z =
      let (c', zone) = resolve_zone_id c z in
      elim zone [
        | failed e ↦ (c', some (failed e))
        | ok id ↦ (
          c',
          list_pages
              (λ page.
                read_answer "cloudflare list records" (api.records_page (headers c') id page z))
              fuel,
        )
      ]

  -- `ListZones`, with fuel in the same way: the identifier and the name of each zone.
  unfoldable pub list_zones : ℕ → Client → Z → Option (Result (List (String × String)))
  unfolding list_pages headers
  list_zones fuel c z =
      list_pages (λ page. read_answer "cloudflare list zones" (api.zones_page (headers c) page z))
        fuel

  -- A question about the zone of the client, once it is resolved.
  unfoldable pub ask_zone :
      {A : Type 0} → (Client → String → Result A) → Client × Result String → Client × Result A
  ask_zone call (c, failed e) = (c, failed e)
  ask_zone call (c, ok zone) = (c, call c zone)

  -- `GetRecord`.
  unfoldable pub get_record : String → Client → Z → Client × Result DnsRecord
  unfolding ask_zone resolve_zone_id headers
  get_record record_id c z =
      let id = trim_space record_id in
      if id == ""
      then (c, failed "cloudflare record ID is required")
      else ask_zone
          (λ c' zone. read_answer "cloudflare get record" (api.read_record (headers c') zone id z))
          (resolve_zone_id c z)

  -- What is written, for a payload that may be refused.
  unfoldable pub write_record :
      (Headers → String → CreateRecordReq → Z → Z × HttpAnswer DnsRecord)
      → String
      → Result CreateRecordReq
      → Client
      → Z
      → Z × Client × Result DnsRecord
  unfolding in_zone resolve_zone_id headers
  write_record send op (failed e) c z = (z, c, failed e)
  write_record send op (ok payload) c z =
      let resolved = resolve_zone_id c z in
      in_zone
        (λ zone z1.
          let (z', answer) = send (headers resolved.0) zone payload z1 in
          (z', read_answer op answer))
        resolved z

  -- `CreateDNSRecord`.
  unfoldable pub create_dns_record :
      DnsRecordInput → String → Client → Z → Z × Client × Result DnsRecord
  unfolding write_record
  create_dns_record input comment c z =
      write_record api.post_record "cloudflare create record" (record_payload input comment) c z

  -- `UpdateDNSRecord`.
  unfoldable pub update_dns_record :
      String → DnsRecordInput → String → Client → Z → Z × Client × Result DnsRecord
  unfolding write_record
  update_dns_record record_id input comment c z =
      if trim_space record_id == ""
      then (z, c, failed "cloudflare DNS record ID is required")
      else write_record (λ h zone. api.put_record h zone record_id) "cloudflare update record"
          (record_payload input comment) c z

  -- `DeleteRecord`; an empty body, which Go takes for success, counts as one that is decoded.
  unfoldable pub delete_record : String → Client → Z → Z × Client × Result Unit
  unfolding in_zone resolve_zone_id headers
  delete_record record_id c z =
      let resolved = resolve_zone_id c z in
      in_zone
        (λ zone z1.
          let (z', answer) = api.delete_record (headers resolved.0) zone record_id z1 in
          (z', read_answer "cloudflare delete record" answer))
        resolved z

  -- `CreateRecord`, for a tunnel.
  unfoldable pub create_record :
      String → String → String → Bool → String → Client → Z → Z × Client × Result DnsRecord
  unfolding create_dns_record
  create_record name kind content proxied tunnel_id c z =
      create_dns_record
        (record {
          kind = kind;
          name = name;
          content = content;
          ttl = pos 1;
          proxied = some proxied;
          priority = none;
          caa = none;
        })
        ("ashan-frp managed: tunnel " <> tunnel_id) c z

-- `FindRecordByComment` over the records of the list.
unfoldable pub find_record_by_comment : String → List DnsRecord → Option DnsRecord
find_record_by_comment tunnel_id [] = none
find_record_by_comment tunnel_id (r ∷ rs) =
    let rest = find_record_by_comment tunnel_id rs in
    if r.comment == ("ashan-frp managed: tunnel " <> tunnel_id) then some r else rest

-- `FindRecordsByTag` over the records of the list.
unfoldable pub find_records_by_tag : List DnsRecord → List DnsRecord
unfolding starts
find_records_by_tag rs = select (λ r. starts "ashan-frp managed:" r.comment) rs
