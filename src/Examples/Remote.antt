-- ===== src/Examples/Remote.antt =====
-- A synchronisation with ChmlFrp at concrete inputs.
use ashan_frp.Base.{ℕ, String, ◌<>◌, ◌≡◌, ◌≢◌, refl, none, some, [], ◌∷◌, Option, List}
use ashan_frp.Base.Int.{pos, negsuc}
use ashan_frp.Base.Atoi.{atoi}
use ashan_frp.Base.Text.{show_nat, trim_space, to_lower}
use ashan_frp.Base.Result.{Result, ok}
use ashan_frp.Domain.Tunnel.{Tunnel, zero_tunnel}
use ashan_frp.Domain.Credential.{UpstreamCredential, zero_credential}
use ashan_frp.Domain.Remote.{ChmlFrpTunnel, get_name, get_domain, get_local_ip}
use ashan_frp.Repository.{IsTable}
use ashan_frp.Repository.Memory.{memory_table}
use ashan_frp.Repository.Parts.{part_table}
use ashan_frp.Worker.Failover.Kept.{stamp_tunnel}
use ashan_frp.Http.Request.{Request}
use ashan_frp.Http.Tunnels.Remote.{sync_chmlfrp, listed_remote_port}
use ashan_frp.Http.Tunnels.Remote.Lost.{IsSame, sync_chmlfrp-IsSame}
use ashan_frp.Examples.Database.{
  Database, no_rows, tunnels, jobs, accounts, audits, credentials, tunnels-IsTable,
  audits-tunnels-IsApart,
}

abbrev request : Request
request = record {
  account_id = "acc_1";
  account_name = "admin";
  request_id = "req_1";
  trace_id = "trc_1";
  client_ip = "192.0.2.1";
  user_agent = "curl";
}

abbrev listed : ChmlFrpTunnel
listed = record {
  name = "";
  tunnel_name = "[ashan-frp]blog";
  node = "tokyo";
  kind = "TCP";
  port_type = "";
  local_ip = "";
  local_ip_v2 = "";
  local_port = pos 80;
  local_port_v2 = pos 0;
  remote_port = pos 0;
  remote_port_v2 = pos 0;
  n_port = "";
  d_port = "20022";
  dorp = "";
  domain = "";
  band_domain_v2 = "";
}

abbrev blog : Tunnel
blog = record zero_tunnel { id = "tun_1"; name = "blog"; desired_state = "enabled" }

abbrev chmlfrp : UpstreamCredential
chmlfrp = record zero_credential { id = "c1"; provider = "chmlfrp"; encrypted_secret = "sealed" }

abbrev database : Database
database = (tunnels.save blog (credentials.save chmlfrp no_rows).0).0

abbrev unseal : String → Option String
unseal s = some "token"

abbrev plain : String → Option String
plain s = none

abbrev list : String → Result (List ChmlFrpTunnel)
list token = ok (listed ∷ record listed { tunnel_name = "shop" } ∷ [])

abbrev ids : ℕ → String
ids n = "tun_new_" <> show_nat n

law : IsTable tunnels (λ t. t.id) stamp_tunnel
law = tunnels-IsTable stamp_tunnel (λ t. (t.created_at, t.updated_at, refl))

abbrev synced : Database
synced =
    (sync_chmlfrp tunnels jobs accounts audits request credentials unseal plain list ids
      database).db

abbrev synced_blog : Tunnel
synced_blog = record blog {
  chmlfrp_node = "tokyo";
  chmlfrp_tunnel_name = "[ashan-frp]blog";
  local_ip = "127.0.0.1";
  local_port = pos 80;
  remote_port = pos 20022;
  protocol = "tcp";
}

blog_there : tunnels.row "tun_1" synced ≡ some synced_blog
unfolding sync_chmlfrp memory_table part_table trim_space get_name get_domain to_lower get_local_ip
    atoi
blog_there = refl

tun_1_named : blog.id ≢ ""
tun_1_named e = cc

sync_chmlfrp-IsSame_example :
    (a : Tunnel) × (tunnels.row "tun_1" database ≡ some a)
    × IsSame tunnels jobs accounts audits request a synced_blog
sync_chmlfrp-IsSame_example =
    sync_chmlfrp-IsSame tunnels jobs accounts audits request law audits-tunnels-IsApart credentials
      unseal plain list ids database "tun_1" synced_blog tun_1_named blog_there

port_of_text : listed_remote_port listed ≡ pos 20022
unfolding listed_remote_port atoi
port_of_text = refl

not_a_number : atoi "22x" ≡ pos 0
unfolding atoi
not_a_number = refl

too_small : atoi "-9223372036854775809" ≡ negsuc 9223372036854775807
unfolding atoi
too_small = refl

too_large : atoi "99999999999999999999x" ≡ pos 9223372036854775807
unfolding atoi
too_large = refl

-- Both tunnels are counted, and the database has one with an identifier.
counted :
    (sync_chmlfrp tunnels jobs accounts audits request credentials unseal plain list ids
      database).body
    ≡ some 2
unfolding sync_chmlfrp memory_table part_table trim_space get_name
counted = refl

none_added :
    tunnels.row "tun_new_1"
      (sync_chmlfrp tunnels jobs accounts audits request credentials unseal plain list ids
        database).db
    ≡ none
unfolding sync_chmlfrp memory_table part_table trim_space get_name
none_added = refl
