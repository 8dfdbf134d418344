-- ===== src/Repository/Tunnels.antt =====
-- frp-backend/internal/repository/repository.go: the queries on tunnels.
use ashan_frp.Base.{ltb, String, ◌<>◌, Bool, ◌&&◌, ◌||◌, not, Option, none, List}
use ashan_frp.Base.{◌==◌, string_eq}
use ashan_frp.Base.Int.{lebℤ}
use ashan_frp.Domain.Tunnel.{Tunnel, zero_tunnel}
use ashan_frp.Repository.{Table, Lookup, or_zero}
use ashan_frp.Repository.Jobs.{asked}

pub record TunnelFilter : Type 0 where
  pub status : String
  pub protocol : String
  pub chmlfrp_node : String

abbrev pub matches : TunnelFilter → Tunnel → Bool
matches f t =
    asked f.status t.desired_state
    && asked f.protocol t.protocol
    && asked f.chmlfrp_node t.chmlfrp_node

-- `updated_at DESC`.
abbrev pub newer : Tunnel → Tunnel → Bool
newer a b = ltb b.updated_at a.updated_at

-- `failover_priority ASC, created_at ASC`.
abbrev pub sooner : Tunnel → Tunnel → Bool
sooner a b =
    not (lebℤ b.failover_priority a.failover_priority)
    || (lebℤ a.failover_priority b.failover_priority && ltb a.created_at b.created_at)

module _ {S : Type 0} (T : Table S Tunnel) where
  unfoldable pub find_tunnel_by_id : String → S → Lookup Tunnel
  find_tunnel_by_id id s = or_zero zero_tunnel (T.first (λ t. t.id == id) s)

  unfoldable pub find_tunnel_by_domain : String → S → Lookup Tunnel
  find_tunnel_by_domain full_domain s =
      or_zero zero_tunnel (T.first (λ t. t.full_domain == full_domain) s)

  unfoldable pub find_tunnel_by_name : String → S → Lookup Tunnel
  find_tunnel_by_name name s = or_zero zero_tunnel (
      T.first
        (λ t.
          t.name == name
          || t.project_name == name
          || t.chmlfrp_tunnel_name == ("[ashan-frp]" <> name))
        s)

  unfoldable pub list_tunnels : TunnelFilter → S → Option (List Tunnel)
  list_tunnels f s = T.find (matches f) newer none s

  unfoldable pub list_failover_tunnels : S → Option (List Tunnel)
  list_failover_tunnels s = T.find (λ t. t.is_failover_pool) sooner none s
