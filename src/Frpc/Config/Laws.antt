-- ===== src/Frpc/Config/Laws.antt =====
-- Which configurations are rendered, and what holds of each proxy in them.
use ashan_frp.Base.{String, ◌≡◌, refl, true, List, [], ◌∷◌, ◌≢◌, ◌↔◌, ◌⊎◌, arith}
use ashan_frp.Base.{string_eq, select, All, eq_iff}
use ashan_frp.Base.Int.{pos, ◌≤ℤ◌}
use ashan_frp.Base.Text.{to_lower}
use ashan_frp.Domain.Tunnel.{Tunnel}
use ashan_frp.Frpc.Config.{
  FrpcProxyConfig, FrpcConfig, ConfigRenderer, config, proxy_of, proxies, render, is_enabled,
  proxy_type,
}

-- The configuration that `render` fills in.
abbrev filled : ConfigRenderer → List Tunnel → FrpcConfig
filled r ts = record {
  server_addr = r.server_addr;
  server_port = r.server_port;
  auth_token = r.auth_token;
  log_file = "";
  log_level = r.log_level;
  log_max_days = r.log_max_days;
  proxies = proxies ts;
}

-- A configuration is rendered exactly when there is an address and the port is in 1 to 65535.
pub render-config_iff :
    (r : ConfigRenderer) (ts : List Tunnel)
    → ((c : FrpcConfig) × (render r ts ≡ config c))
      ↔ ((r.server_addr ≢ "") × (pos 1 ≤ℤ r.server_port) × (r.server_port ≤ℤ pos 65535))
unfolding render
render-config_iff r ts = (
  λ c. let e = c.1 in ground (arith, eq_iff r.server_addr ""),
  λ h. (filled r ts, ground (arith, eq_iff r.server_addr "")),
)

proxies-select : (ts : List Tunnel) → proxies (select is_enabled ts) ≡ proxies ts
unfolding proxies select
proxies-select [] = refl
proxies-select (t ∷ ts) = ground (arith, proxies-select ts)

-- Selecting the enabled tunnels first, as the HTTP handlers do, gives the same result.
pub render-select :
    (r : ConfigRenderer) (ts : List Tunnel) → render r (select is_enabled ts) ≡ render r ts
unfolding render
render-select r ts = rw (proxies-select ts)

-- The proxy types that frpc knows.
abbrev pub IsProxyType : String → Type 0
IsProxyType p =
    (p ≡ "tcp") ⊎ (p ≡ "udp") ⊎ (p ≡ "http") ⊎ (p ≡ "https") ⊎ (p ≡ "stcp") ⊎ (p ≡ "xtcp")

pub proxy_type-IsProxyType : (p : String) → IsProxyType (proxy_type p)
unfolding proxy_type
proxy_type-IsProxyType p = ground (
  arith,
  eq_iff (to_lower p) "tcp",
  eq_iff (to_lower p) "udp",
  eq_iff (to_lower p) "http",
  eq_iff (to_lower p) "https",
  eq_iff (to_lower p) "stcp",
  eq_iff (to_lower p) "xtcp",
)

-- What frpc needs of a proxy: a known type, and the fields that go with it.
pub record IsProxy (p : FrpcProxyConfig) : Type 0 where
  pub known : IsProxyType p.type
  pub web_port : (p.type ≡ "http") ⊎ (p.type ≡ "https") → p.remote_port ≡ pos 0
  pub plain_hosts :
      p.type ≢ "http" → p.type ≢ "https" → (p.subdomain ≡ "") × (p.custom_domains ≡ "")
  pub encrypted : (p.encryption ≡ true) × (p.compression ≡ true)

proxy_of-IsProxy : (t : Tunnel) → IsProxy (proxy_of t)
unfolding proxy_of
proxy_of-IsProxy t = ground (
  arith,
  proxy_type-IsProxyType t.protocol,
  eq_iff (proxy_type t.protocol) "http",
  eq_iff (proxy_type t.protocol) "https",
)

proxies-IsProxy : (ts : List Tunnel) → All IsProxy (proxies ts)
unfolding proxies
proxies-IsProxy [] = tt
proxies-IsProxy (t ∷ ts) = ground (arith, proxy_of-IsProxy t, proxies-IsProxy ts)

-- Every proxy of a rendered configuration has a type that frpc knows; a web proxy has no remote
-- port, and only a web proxy has host names.
pub render-IsProxy :
    (r : ConfigRenderer) (ts : List Tunnel) {c : FrpcConfig}
    → render r ts ≡ config c
    → All IsProxy c.proxies
unfolding render
render-IsProxy r ts h = ground (arith, proxies-IsProxy ts)
