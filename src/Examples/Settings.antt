-- ===== src/Examples/Settings.antt =====
-- The settings and the credential of Cloudflare at concrete inputs.
use ashan_frp.Base.{String, ◌≡◌, refl, Bool, true, none, some, [], ◌∷◌, Option}
use ashan_frp.Base.Result.{Result, ok, failed}
use ashan_frp.Domain.Credential.{UpstreamCredential, zero_credential}
use ashan_frp.Domain.Settings.{CfZone, IntegrationSettings, zero_integrations, SettingsPatchRequest}
use ashan_frp.Cloudflare.Client.{Credentials, auth_candidates}
use ashan_frp.Base.Text.{trim_space, after}
use ashan_frp.Repository.{IsTable}
use ashan_frp.Repository.Memory.{memory_table}
use ashan_frp.Repository.Parts.{part_table}
use ashan_frp.Repository.Settings.Saved.{stamp_credential}
use ashan_frp.Http.Request.{Request}
use ashan_frp.Http.Settings.{CloudflareVerifier, ConfigureInput, saved, configure_cloudflare}
use ashan_frp.Http.Settings.Update.{update_settings}
use ashan_frp.Http.Settings.Verified.{IsVerified, configure_cloudflare-IsVerified}
use ashan_frp.Http.Settings.Update.Kept.{update_settings-IsRowRenamed}
use ashan_frp.Http.Settings.View.Renamed.{IsRowRenamed}
use ashan_frp.Http.Settings.Verify.{verify_cloudflare_credential}
use ashan_frp.Http.Settings.Verify.Outcome.{IsOutcome, verify_cloudflare_credential-IsOutcome}
use ashan_frp.Examples.Database.{
  Database, no_rows, credentials, settings, audits, credentials-IsTable,
  settings-credentials-IsApart, audits-credentials-IsApart,
}

abbrev request : Request
request = record {
  account_id = "acc_1";
  account_name = "admin";
  request_id = "req_1";
  trace_id = "trc_1";
  client_ip = "192.0.2.1";
  user_agent = "curl";
}

abbrev encrypt : String → Option String
encrypt s = some "sealed"

abbrev reference : String → String
reference s = "ref"

abbrev encode : IntegrationSettings → String
encode i = i.cloudflare.zone_name

abbrev decode : String → IntegrationSettings
decode s = zero_integrations

abbrev commit : Database → Bool
commit d = true

abbrev example_org : CfZone
example_org = record { id = "zone_1"; name = "example.org" }

abbrev client : Credentials → String → CloudflareVerifier
client c zone = record {
  verify_token = ok tt;
  resolve_zone = ok tt;
  list_records = ok [];
  list_zones = ok (example_org ∷ []);
}

abbrev asked : ConfigureInput
asked = record { secret = " cfut_abc "; email = ""; zone_id = "" }

abbrev token : Credentials
token = record { auth_method = "api_token"; secret = "cfut_abc"; email = "" }

abbrev cloudflare : UpstreamCredential
cloudflare = record zero_credential {
  id = "c1";
  provider = "cloudflare";
  identifier = "example.org";
  encrypted_secret = "sealed";
}

abbrev database : Database
database = (credentials.save cloudflare no_rows).0

abbrev patch : SettingsPatchRequest
patch = record {
  general = "{}";
  sync = "{}";
  queue = "{}";
  frpc_runtime = "{}";
  integrations = record zero_integrations {
    chmlfrp = record zero_integrations.chmlfrp { username = "ann"; password = "secret" };
    cloudflare = record zero_integrations.cloudflare { zone_name = "other.org" };
  };
}

abbrev refuse_login : String → String → Result Unit
refuse_login name secret = failed "refused"

law : IsTable credentials (λ c. c.id) stamp_credential
law = credentials-IsTable stamp_credential (λ c. (c.created_at, c.updated_at, refl))

configure_cloudflare-IsVerified_example :
    IsVerified credentials settings audits encrypt reference encode decode request commit client
      asked database
      (configure_cloudflare credentials settings audits encrypt reference encode decode request
        commit client 9 "cre_new"
        (some asked)
        database)
configure_cloudflare-IsVerified_example =
    configure_cloudflare-IsVerified credentials settings audits encrypt reference encode decode
      request commit client law settings-credentials-IsApart audits-credentials-IsApart 9 "cre_new"
      asked database

-- It is saved.
configured :
    (configure_cloudflare credentials settings audits encrypt reference encode decode request commit
      client 9 "cre_new"
      (some asked)
      database).body
    ≡ some (saved token example_org)
unfolding configure_cloudflare memory_table part_table auth_candidates trim_space after
configured = refl

abbrev decrypt : String → Option String
decrypt s = some "cfut_abc"

abbrev parse : String → Option IntegrationSettings
parse s = some zero_integrations

-- The credential is stored with the ID of its zone.
abbrev by_id : UpstreamCredential
by_id = record cloudflare { identifier = "0123456789abcdef0123" }

abbrev by_id_there : Database
by_id_there = (credentials.save by_id no_rows).0

abbrev zone_client : Credentials → String → CloudflareVerifier
zone_client c zone = record (client c zone) {
  list_zones = ok (record { id = "0123456789abcdef0123"; name = "example.org" } ∷ []);
}

by_id-row : credentials.row "c1" by_id_there ≡ some by_id
unfolding memory_table part_table
by_id-row = refl

unknown : (id : String) → id ≡ "cre_1" → credentials.row id by_id_there ≡ none
unfolding memory_table part_table
unknown id e = rw e refl

update_settings-IsRowRenamed_example :
    IsRowRenamed credentials settings decrypt encode parse zone_client "c1" by_id
      (update_settings credentials settings audits encrypt reference encode decode request decrypt
        parse zone_client 9 "cre_1" "cre_1" refuse_login refuse_login
        (some patch)
        by_id_there).0
update_settings-IsRowRenamed_example =
    update_settings-IsRowRenamed credentials settings audits encrypt reference encode decode request
      law settings-credentials-IsApart audits-credentials-IsApart decrypt parse zone_client 9
      "cre_1" "cre_1" refuse_login refuse_login (some patch) "c1" by_id by_id_there by_id-row refl
      (unknown "cre_1" refl) (unknown "cre_1" refl)

verify_cloudflare_credential-IsOutcome_example :
    IsOutcome credentials settings audits decrypt encode parse request client 9 database (
      verify_cloudflare_credential credentials settings audits decrypt encode parse request client 9
        database)
verify_cloudflare_credential-IsOutcome_example =
    verify_cloudflare_credential-IsOutcome credentials settings audits decrypt encode parse request
      client law settings-credentials-IsApart audits-credentials-IsApart 9 database

-- It reports no error.
valid :
    (verify_cloudflare_credential credentials settings audits decrypt encode parse request client 9
      database).1.error
    ≡ none
unfolding verify_cloudflare_credential memory_table part_table
valid = refl
