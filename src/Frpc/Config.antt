-- ===== src/Frpc/Config.antt =====
-- frp-backend/internal/frpc/config.go: the configuration of frpc from the tunnels.
pub mod Laws
pub mod Names
use ashan_frp.Base.{ℕ, String, Bool, true, not, List, [], ◌∷◌, ◌||◌}
use ashan_frp.Base.{◌==◌, string_eq, if◌then◌else◌}
use ashan_frp.Base.Int.{ℤ, pos, lebℤ}
use ashan_frp.Base.Text.{to_lower, replace_char}
use ashan_frp.Domain.Tunnel.{Tunnel, tunnel_desired_enabled}
use Prim.Native.String.{char_at}

pub record FrpcProxyConfig : Type 0 where
  pub name : String
  pub type : String
  pub local_ip : String
  pub local_port : ℤ
  pub remote_port : ℤ
  pub subdomain : String
  pub custom_domains : String
  pub encryption : Bool
  pub compression : Bool

pub record FrpcConfig : Type 0 where
  pub server_addr : String
  pub server_port : ℤ
  pub auth_token : String
  pub log_file : String
  pub log_level : String
  pub log_max_days : ℤ
  pub proxies : List FrpcProxyConfig

pub record ConfigRenderer : Type 0 where
  pub server_addr : String
  pub server_port : ℤ
  pub auth_token : String
  pub log_level : String
  pub log_max_days : ℤ

unfoldable pub new_config_renderer : String → ℤ → String → ConfigRenderer
new_config_renderer server_addr server_port auth_token = record {
  server_addr = server_addr;
  server_port = server_port;
  auth_token = auth_token;
  log_level = "info";
  log_max_days = pos 3;
}

unfoldable pub set_log_level : String → ConfigRenderer → ConfigRenderer
set_log_level level r = record r { log_level = level }

unfoldable pub set_log_max_days : ℤ → ConfigRenderer → ConfigRenderer
set_log_max_days days r = record r { log_max_days = days }

pub data RenderError : Type 0 where
  server_addr_required : RenderError
  server_port_out_of_range : ℤ → RenderError

pub data Rendered : Type 0 where
  config : FrpcConfig → Rendered
  failed : RenderError → Rendered

-- The first name that is not empty, with spaces and dots replaced.
unfoldable pub proxy_name : Tunnel → String
proxy_name t =
    let name = if t.project_name == "" then t.name else t.project_name in
    let name = if name == "" then t.id else name in
    replace_char b'.' (char_at "_" 0) (replace_char b' ' (char_at "_" 0) name)

-- The types of the `switch`.
abbrev pub is_proxy_type : String → Bool
is_proxy_type p =
    p == "tcp" || p == "udp" || p == "http" || p == "https" || p == "stcp" || p == "xtcp"

unfoldable pub proxy_type : String → String
proxy_type protocol = let p = to_lower protocol in if is_proxy_type p then p else "tcp"

abbrev pub is_enabled : Tunnel → Bool
is_enabled t = t.desired_state == tunnel_desired_enabled

-- The body of the loop of `Render`, past its test.
unfoldable pub proxy_of : Tunnel → FrpcProxyConfig
proxy_of t =
    let type = proxy_type t.protocol in
    let proxy : FrpcProxyConfig = record {
      name = proxy_name t;
      type = type;
      local_ip = t.local_ip;
      local_port = t.local_port;
      remote_port = t.remote_port;
      subdomain = "";
      custom_domains = "";
      encryption = true;
      compression = true;
    } in
    if type == "http" || type == "https"
    then record proxy {
      subdomain = t.subdomain;
      custom_domains = t.full_domain;
      remote_port = pos 0;
    }
    else proxy

unfoldable pub proxies : List Tunnel → List FrpcProxyConfig
proxies [] = []
proxies (t ∷ ts) = let rest = proxies ts in if is_enabled t then proxy_of t ∷ rest else rest

unfoldable pub render : ConfigRenderer → List Tunnel → Rendered
render r tunnels =
    if r.server_addr == ""
    then failed server_addr_required
    else if lebℤ r.server_port (pos 0) || not (lebℤ r.server_port (pos 65535))
    then failed (server_port_out_of_range r.server_port)
    else config (record {
      server_addr = r.server_addr;
      server_port = r.server_port;
      auth_token = r.auth_token;
      log_file = "";
      log_level = r.log_level;
      log_max_days = r.log_max_days;
      proxies = proxies tunnels;
    })
