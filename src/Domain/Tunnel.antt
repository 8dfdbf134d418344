-- ===== src/Domain/Tunnel.antt =====
-- frp-backend/internal/domain/types.go: the tunnel row and the states it can ask for.
use ashan_frp.Base.{ℕ, String, Bool, false, Option, none}
use ashan_frp.Base.Int.{ℤ, pos}

abbrev pub tunnel_desired_enabled : String
tunnel_desired_enabled = "enabled"

abbrev pub tunnel_desired_disabled : String
tunnel_desired_disabled = "disabled"

pub record Tunnel : Type 0 where
  pub id : String
  pub node_id : String
  pub project_name : String
  pub subdomain : String
  pub full_domain : String
  pub protocol : String
  pub name : String
  pub tunnel_type : String
  pub desired_state : String
  pub local_ip : String
  pub local_port : ℤ
  pub remote_port : ℤ
  pub dns_domain_cname : String
  pub dns_proxied : Bool
  pub chmlfrp_node : String
  pub chmlfrp_tunnel_name : String
  pub chmlfrp_tunnel_id : String
  pub cf_proxied : Bool
  pub cf_record_id : String
  pub one_panel_website_id : ℤ
  pub one_panel_ssl_enabled : Bool
  pub one_panel_proxy_target : String
  pub is_failover_pool : Bool
  pub failover_priority : ℤ
  pub last_health_checked_at : Option ℕ
  pub node_real_ip : String
  pub created_by : String
  pub actual_state : String
  pub state_reason : String
  pub manual_override : Bool
  pub runtime_key : String
  pub last_applied_at : Option ℕ
  pub last_error_code : String
  pub last_error_message : String
  pub created_at : ℕ
  pub updated_at : ℕ

-- The zero value, which `var t domain.Tunnel` holds.
abbrev pub zero_tunnel : Tunnel
zero_tunnel = record {
  id = "";
  node_id = "";
  project_name = "";
  subdomain = "";
  full_domain = "";
  protocol = "";
  name = "";
  tunnel_type = "";
  desired_state = "";
  local_ip = "";
  local_port = pos 0;
  remote_port = pos 0;
  dns_domain_cname = "";
  dns_proxied = false;
  chmlfrp_node = "";
  chmlfrp_tunnel_name = "";
  chmlfrp_tunnel_id = "";
  cf_proxied = false;
  cf_record_id = "";
  one_panel_website_id = pos 0;
  one_panel_ssl_enabled = false;
  one_panel_proxy_target = "";
  is_failover_pool = false;
  failover_priority = pos 0;
  last_health_checked_at = none;
  node_real_ip = "";
  created_by = "";
  actual_state = "";
  state_reason = "";
  manual_override = false;
  runtime_key = "";
  last_applied_at = none;
  last_error_code = "";
  last_error_message = "";
  created_at = 0;
  updated_at = 0;
}

pub record TunnelInput : Type 0 where
  pub node_id : String
  pub name : String
  pub tunnel_type : String
  pub desired_state : String
  pub local_ip : String
  pub local_port : ℤ
  pub remote_port : ℤ
  pub dns_domain_cname : String
  pub dns_proxied : Bool
  pub project_name : String
  pub subdomain : String
  pub protocol : String
  pub chmlfrp_node : String
  pub cf_proxied : Bool
