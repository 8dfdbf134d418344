-- ===== src/Domain/Remote.antt =====
-- frp-backend/internal/domain/integration_types.go: a tunnel as ChmlFrp lists it, whose fields have
-- other names in its two interfaces.
use ashan_frp.Base.{String, if◌then◌else◌}
use ashan_frp.Base.{◌==◌, string_eq}
use ashan_frp.Base.Int.{ℤ, is_positive}

-- The fields that the program reads.
pub record ChmlFrpTunnel : Type 0 where
  pub name : String
  pub tunnel_name : String
  pub node : String
  pub kind : String
  pub port_type : String
  pub local_ip : String
  pub local_ip_v2 : String
  pub local_port : ℤ
  pub local_port_v2 : ℤ
  pub remote_port : ℤ
  pub remote_port_v2 : ℤ
  pub n_port : String
  pub d_port : String
  pub dorp : String
  pub domain : String
  pub band_domain_v2 : String

unfoldable pub get_name : ChmlFrpTunnel → String
get_name t = if t.name == "" then t.tunnel_name else t.name

unfoldable pub get_type : ChmlFrpTunnel → String
get_type t = if t.kind == "" then t.port_type else t.kind

unfoldable pub get_local_ip : ChmlFrpTunnel → String
get_local_ip t =
    if t.local_ip == ""
    then if t.local_ip_v2 == "" then "127.0.0.1" else t.local_ip_v2
    else t.local_ip

unfoldable pub get_local_port : ChmlFrpTunnel → ℤ
get_local_port t = if is_positive t.local_port then t.local_port else t.local_port_v2

unfoldable pub get_remote_port : ChmlFrpTunnel → ℤ
get_remote_port t = if is_positive t.remote_port then t.remote_port else t.remote_port_v2

unfoldable pub get_domain : ChmlFrpTunnel → String
get_domain t = if t.domain == "" then t.band_domain_v2 else t.domain
