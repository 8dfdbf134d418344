-- ===== src/Examples/Deprovision.antt =====
-- The work of two jobs at concrete inputs.
use ashan_frp.Base.{
  ℕ, suc, ◌≡◌, refl, sym, ◌∙◌, String, true, Option, some, none, [], ◌∷◌, arith, eq_iff,
  if◌then◌else◌,
}
use ashan_frp.Base.{string_eq, ◌==◌}
use ashan_frp.Base.{List, false}
use ashan_frp.Base.Int.{pos}
use ashan_frp.Base.Result.{Result, ok}
use ashan_frp.Chmlfrp.{RemoteTunnel}
use ashan_frp.Cloudflare.Client.{DnsRecord}
use ashan_frp.Domain.Tunnel.{Tunnel, zero_tunnel}
use ashan_frp.Domain.Job.{Job}
use ashan_frp.Domain.Credential.{UpstreamCredential, zero_credential}
use ashan_frp.Worker.Reconcile.{reconcile}
use ashan_frp.Worker.Reconcile.Reported.{IsStrayReport, reconcile-IsStrayReport}
use ashan_frp.Repository.{IsTable}
use ashan_frp.Repository.Memory.{memory_table}
use ashan_frp.Repository.Parts.{part_table}
use ashan_frp.Repository.Tunnels.{find_tunnel_by_id}
use ashan_frp.Worker.Failover.Kept.{stamp_tunnel}
use ashan_frp.Worker.Deprovision.{Services, Outside, pointed, deprovision_tunnel}
use ashan_frp.Worker.Deprovision.Ended.{
  IsEnded, IsUndone, deprovision_tunnel-IsEnded, deprovision_tunnel-IsUndone,
}
use ashan_frp.Examples.Database.{Database, no_rows, tunnels, credentials, tunnels-IsTable}

abbrev job : Job
job = record {
  id = "job_1";
  kind = "deprovision_tunnel";
  target_type = "tunnel";
  target_id = "tun_1";
  channel = "";
  status = "running";
  attempt_count = 1;
  max_attempts = 3;
  title = "Deprovision: blog";
  payload_json = "{\"tunnel_id\":\"tun_1\"}";
  result_json = "";
  retryable = true;
  next_retry_at = none;
  started_at = none;
  completed_at = none;
  error_message = "";
  created_by = "acc_1";
  created_at = 0;
  updated_at = 0;
}

abbrev blog : Tunnel
blog = record zero_tunnel {
  id = "tun_1";
  chmlfrp_tunnel_id = "77";
  actual_state = "deprovisioning";
}

-- Services that count the deletions.
abbrev counting : Services ℕ
counting = record {
  delete_chmlfrp = λ cred secret id n. (suc n, ok tt);
  delete_cloudflare = λ cred secret id n. (suc n, ok tt);
  delete_onepanel = λ cred secret id n. (suc n, ok tt);
}

abbrev unseal : String → Option String
unseal s = if s == "" then none else some "secret"

abbrev outside : Outside Database ℕ
outside = record { db = (tunnels.save blog no_rows).0; remote = 0; events = [] }

law : IsTable tunnels (λ t. t.id) stamp_tunnel
law = tunnels-IsTable stamp_tunnel (λ t. (t.created_at, t.updated_at, refl))

deprovision_tunnel-IsEnded_example :
    IsEnded tunnels credentials counting unseal
      (pointed zero_tunnel (find_tunnel_by_id tunnels "tun_1" outside.db)).id
      outside
      (deprovision_tunnel tunnels credentials counting unseal job (some "tun_1") outside)
deprovision_tunnel-IsEnded_example =
    deprovision_tunnel-IsEnded tunnels credentials counting unseal law job "tun_1" outside

no_credential : credentials.first (λ c. c.provider == "chmlfrp") outside.db ≡ none
unfolding part_table memory_table
no_credential = refl

found :
    (pointed zero_tunnel (find_tunnel_by_id tunnels "tun_1" outside.db)).chmlfrp_tunnel_id ≡ "77"
unfolding find_tunnel_by_id part_table memory_table
found = refl

deprovision_tunnel-IsUndone_example :
    IsUndone tunnels credentials counting unseal outside
      (deprovision_tunnel tunnels credentials counting unseal job (some "tun_1") outside)
deprovision_tunnel-IsUndone_example =
    deprovision_tunnel-IsUndone tunnels credentials counting unseal job "tun_1" outside refl
      (λ e. ground (sym found ∙ e, arith, eq_iff "77" "")) no_credential

abbrev sealed : UpstreamCredential
sealed = record zero_credential { provider = "chmlfrp"; encrypted_secret = "sealed" }

-- A tunnel at ChmlFrp and a record at Cloudflare that no row accounts for.
abbrev lost : UpstreamCredential → String → Result (List RemoteTunnel)
lost cred secret = ok (record { id = "77"; name = "[ashan-frp]lost" } ∷ [])

abbrev stray : DnsRecord
stray = record {
  id = "r1";
  name = "lost.example.org";
  kind = "A";
  content = "192.0.2.7";
  proxied = false;
  comment = "ashan-frp managed: manual";
  ttl = pos 1;
  priority = none;
}

abbrev tagged : UpstreamCredential → String → Result (List DnsRecord)
tagged cred secret = ok (stray ∷ [])

abbrev both : Database
both =
    (credentials.save
      (record zero_credential { provider = "cloudflare"; encrypted_secret = "sealed" })
      (tunnels.save (record zero_tunnel { id = "tun_2"; full_domain = "shop.example.org" })
        no_rows).0).0

reconcile-IsStrayReport_example :
    IsStrayReport tunnels credentials unseal lost tagged both
      (reconcile tunnels credentials unseal lost tagged job both []).1
reconcile-IsStrayReport_example =
    reconcile-IsStrayReport tunnels credentials unseal lost tagged job both []
