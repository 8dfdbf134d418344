-- ===== src/Http/Dns/Client.antt =====
-- The client of the Cloudflare API as the `cloudflareDNSClient` of the DNS requests. Each call starts
-- from the new client, so that it resolves the zone by itself.
use ashan_frp.Base.{ℕ, String, Option, none, some}
use ashan_frp.Base.Result.{Result, ok, failed}
use ashan_frp.Cloudflare.Client.{
  Api, Client, Credentials, new_client_with_credentials, list_records, list_zones, get_record,
  create_dns_record, update_dns_record, delete_record,
}
use ashan_frp.Http.Dns.{DnsClient}

-- A loop over pages that has not ended when its fuel is spent counts as an error.
abbrev pub ended : {A : Type 0} → Option (Result A) → Result A
ended none = failed "too many pages"
ended (some r) = r

abbrev pub succeeded : {A : Type 0} → Result A → Option A
succeeded (failed e) = none
succeeded (ok a) = some a

abbrev pub outer : {Z A : Type 0} → Z × Client × Result A → Z × Result A
outer r = (r.0, r.2)

unfoldable pub dns_client : {Z : Type 0} → Api Z → ℕ → Client → DnsClient Z
dns_client api fuel c = record {
  list_records = λ z. ended (list_records api fuel c z).1;
  get_record = λ id z. (get_record api id c z).1;
  create_dns_record = λ input comment z. outer (create_dns_record api input comment c z);
  update_dns_record = λ id input comment z. outer (update_dns_record api id input comment c z);
  delete_record = λ id z. outer (delete_record api id c z);
  list_zones = λ z. succeeded (ended (list_zones api fuel c z));
}

-- `NewClientWithCredentials` as the factory of the requests.
unfoldable pub dns_factory : {Z : Type 0} → Api Z → ℕ → Credentials → String → DnsClient Z
unfolding dns_client new_client_with_credentials
dns_factory api fuel credentials zone =
    dns_client api fuel (new_client_with_credentials credentials zone)
