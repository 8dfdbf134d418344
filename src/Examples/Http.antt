-- ===== src/Examples/Http.antt =====
-- The requests on tunnels at concrete inputs.
use ashan_frp.Base.{refl, String, true, false, some}
use ashan_frp.Base.Int.{pos}
use ashan_frp.Domain.Tunnel.{Tunnel, TunnelInput, zero_tunnel}
use ashan_frp.Repository.{IsTable}
use ashan_frp.Worker.Failover.Kept.{stamp_tunnel}
use ashan_frp.Http.Request.{Request}
use ashan_frp.Http.Tunnels.{create_tunnel}
use ashan_frp.Http.Tunnels.Create.{IsRefused, create_tunnel-IsRefused}
use ashan_frp.Examples.Database.{
  Database, no_rows, tunnels, jobs, accounts, audits, tunnels-IsTable,
}

abbrev request : Request
request = record {
  account_id = "acc_1";
  account_name = "admin";
  request_id = "req_1";
  trace_id = "trc_1";
  client_ip = "192.0.2.1";
  user_agent = "curl";
}

abbrev input : TunnelInput
input = record {
  node_id = "";
  name = "blog";
  tunnel_type = "http";
  desired_state = "";
  local_ip = "";
  local_port = pos 8080;
  remote_port = pos 0;
  dns_domain_cname = "";
  dns_proxied = false;
  project_name = "blog";
  subdomain = "blog";
  protocol = "http";
  chmlfrp_node = "";
  cf_proxied = true;
}

abbrev blog : Tunnel
blog = record zero_tunnel { id = "tun_1"; project_name = "blog"; desired_state = "enabled" }

abbrev with_blog : Database
with_blog = (tunnels.save blog no_rows).0

law : IsTable tunnels (λ t. t.id) stamp_tunnel
law = tunnels-IsTable stamp_tunnel (λ t. (t.created_at, t.updated_at, refl))

abbrev payload : Tunnel → String
payload t = t.id

-- An empty database has no tunnel of that domain, and still the request is refused.
create_tunnel-IsRefused_example :
    IsRefused tunnels jobs accounts audits request "example.org" "tun_1" no_rows (
      create_tunnel tunnels jobs accounts audits request "example.org" "tun_1" (some input) no_rows)
create_tunnel-IsRefused_example =
    create_tunnel-IsRefused tunnels jobs accounts audits request "example.org" "tun_1" (some input)
      no_rows
