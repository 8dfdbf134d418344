-- ===== src/Examples/Failover.antt =====
-- The failover pool at concrete inputs.
use ashan_frp.Base.{
  ◌≡◌, refl, String, true, false, Option, some, none, [], ◌∷◌, arith, eq_iff, inl, some_inj, sym,
  ◌∙◌,
}
use ashan_frp.Base.{string_eq, ◌==◌, if◌then◌else◌}
use mathlib.Core.Path.{subst}
use ashan_frp.Domain.Tunnel.{Tunnel, zero_tunnel}
use ashan_frp.Domain.Account.{AuditLog}
use ashan_frp.Repository.{IsTable}
use ashan_frp.Repository.Memory.{memory_table}
use ashan_frp.Repository.Parts.{part_table}
use ashan_frp.Repository.Tunnels.{list_failover_tunnels}
use ashan_frp.Worker.Failover.{
  NodeInfo, check_failover_pool, check_tunnels, check_all, switch_over, probe, checked, some?,
  first_online, is_online, online_ip,
}
use ashan_frp.Worker.Failover.Kept.{check_failover_pool-desired_state, HasNoSwitch, stamp_tunnel}
use ashan_frp.Worker.Failover.Switched.{check_failover_pool-HasDesired, HasDesired}
use ashan_frp.Examples.Database.{Database, no_rows, tunnels, audits, tunnels-IsTable}

abbrev pooled : String → String → String → Tunnel
pooled id node state = record zero_tunnel {
  id = id;
  chmlfrp_node = node;
  desired_state = state;
  is_failover_pool = true;
}

abbrev primary : Tunnel
primary = pooled "tun_1" "node-a" "enabled"

abbrev backup : Tunnel
backup = pooled "tun_2" "node-b" "disabled"

-- The newest row comes first.
abbrev pool : Database
pool = (tunnels.save primary (tunnels.save backup no_rows).0).0

abbrev on : String → Tunnel → Option NodeInfo
on node t =
    if t.chmlfrp_node == node
    then some (record { state = "online"; real_ip = "192.0.2.7" })
    else none

pool-list : list_failover_tunnels tunnels pool ≡ some (primary ∷ backup ∷ [])
unfolding list_failover_tunnels part_table memory_table
pool-list = refl

works : (t : Tunnel) (s : Database) → (tunnels.save t s).1 ≡ true
unfolding part_table memory_table
works t s = refl

apart :
    (l : AuditLog) (s : Database) (k : String)
    → tunnels.row k (audits.create l s).0 ≡ tunnels.row k s
unfolding part_table memory_table
apart l s k = refl

law : IsTable tunnels (λ t. t.id) stamp_tunnel
law = tunnels-IsTable stamp_tunnel (λ t. (t.created_at, t.updated_at, refl))

primary_up : is_online 5 (on "node-a") primary ≡ true
unfolding is_online online_ip
primary_up = refl

primary_down : is_online 5 (on "node-b") primary ≡ false
unfolding is_online online_ip
primary_down = refl

backup_up : is_online 5 (on "node-b") backup ≡ true
unfolding is_online online_ip
backup_up = refl

abbrev primary_checked : Tunnel
primary_checked = record primary { node_real_ip = "192.0.2.7"; last_health_checked_at = some 5 }

primary_row :
    tunnels.row "tun_1" (check_failover_pool 5 (on "node-a") tunnels audits "token" pool)
    ≡ some primary_checked
unfolding check_failover_pool check_tunnels check_all switch_over probe checked first_online
    is_online some? online_ip list_failover_tunnels part_table memory_table
primary_row = refl

check_failover_pool-desired_state_example :
    (r0 : Tunnel) × (tunnels.row "tun_1" pool ≡ some r0)
    × (primary_checked.desired_state ≡ r0.desired_state)
check_failover_pool-desired_state_example =
    check_failover_pool-desired_state 5 (on "node-a") tunnels audits law "token" pool
      (λ ts e.
        subst (HasNoSwitch 5 (on "node-a") tunnels audits law) (some_inj (sym pool-list ∙ e))
          (inl primary_up))
      "tun_1" primary_checked primary_row

check_failover_pool-HasDesired_example :
    let s' = check_failover_pool 5 (on "node-b") tunnels audits "token" pool in
    HasDesired 5 (on "node-b") tunnels audits law apart works "tun_2" "enabled" s'
    × HasDesired 5 (on "node-b") tunnels audits law apart works "tun_1" "disabled" s'
check_failover_pool-HasDesired_example =
    check_failover_pool-HasDesired 5 (on "node-b") tunnels audits law apart works "token" pool
      primary [] backup [] (λ e. ground (e, arith, eq_iff "token" "")) pool-list (primary_down, tt)
      backup_up (λ e. ground (e, arith, eq_iff "tun_1" "tun_2"))
