-- ===== src/Worker/Failover.antt =====
-- frp-backend/internal/worker/failover.go: `CheckFailoverPool`. What `GetNodeInfo` answers for the
-- node of a tunnel, and the token of the credential, are arguments.
pub mod Kept
pub mod Switched
use ashan_frp.Base.{ℕ, String, ◌<>◌, Bool, true, false, Option, none, some, List, [], ◌∷◌}
use ashan_frp.Base.{◌==◌, string_eq, if◌then◌else◌}
use ashan_frp.Domain.Tunnel.{Tunnel, tunnel_desired_enabled, tunnel_desired_disabled}
use ashan_frp.Domain.Account.{AuditLog}
use ashan_frp.Repository.{Table, success}
use ashan_frp.Repository.Credentials.{find_credential_by_provider}
use ashan_frp.Domain.Credential.{UpstreamCredential, credential_token}
use ashan_frp.Repository.Tunnels.{list_failover_tunnels}

-- The part of `ChmlFrpNodeInfoResp` that is read.
pub record NodeInfo : Type 0 where
  pub state : String
  pub real_ip : String

-- The address of a node that is online.
unfoldable pub online_ip : Option NodeInfo → Option String
online_ip none = none
online_ip (some info) = if info.state == "online" then some info.real_ip else none

unfoldable pub checked : ℕ → Tunnel → Option String → Tunnel
checked now t none = record t { last_health_checked_at = some now }
checked now t (some ip) = record t { node_real_ip = ip; last_health_checked_at = some now }

unfoldable pub some? : Option String → Bool
some? none = false
some? (some _) = true

module _ (now : ℕ) (get_node_info : Tunnel → Option NodeInfo) where
  -- The tunnel has a node, and the node is online.
  unfoldable pub is_online : Tunnel → Bool
  unfolding some? online_ip
  is_online t = if t.chmlfrp_node == "" then false else some? (online_ip (get_node_info t))

  -- The tunnel after its check.
  unfoldable pub probe : Tunnel → Tunnel
  unfolding checked online_ip
  probe t = if t.chmlfrp_node == "" then t else checked now t (online_ip (get_node_info t))

  -- The first tunnel of the pool that is online, after its check.
  unfoldable pub first_online : List Tunnel → Option Tunnel
  unfolding is_online probe
  first_online [] = none
  first_online (t ∷ ts) = let rest = first_online ts in if is_online t then some (probe t) else rest

  module _ {S : Type 0} (tunnels : Table S Tunnel) (audits : Table S AuditLog) where
    -- The writes of the loop.
    unfoldable pub check_all : List Tunnel → S → S
    unfolding probe
    check_all [] s = s
    check_all (t ∷ ts) s =
        check_all ts (if t.chmlfrp_node == "" then s else (tunnels.save (probe t) s).0)

    abbrev pub failover_entry : Tunnel → Tunnel → AuditLog
    failover_entry primary online = record {
      account_id = "system";
      account_name = "AutoFailoverMonitor";
      action = "tunnel.auto_failover";
      resource_type = "tunnel";
      resource_id = online.id;
      detail_json =
          "Failover triggered from " <> (primary.chmlfrp_node <> (" to " <> online.chmlfrp_node));
      request_id = "";
      trace_id = "";
      outcome = "success";
      ip_address = "";
      user_agent = "";
    }

    -- The switch from the first tunnel of the pool to the first that is online.
    unfoldable pub switch_over : Tunnel → Option Tunnel → S → S
    switch_over primary none s = s
    switch_over primary (some online) s =
        let disabled = record primary { desired_state = tunnel_desired_disabled } in
        let enabled = record online { desired_state = tunnel_desired_enabled } in
        let saved = (tunnels.save enabled (tunnels.save disabled s).0).0 in
        if primary.id == online.id
        then s
        else (audits.create (failover_entry primary online) saved).0

    unfoldable pub check_tunnels : Option (List Tunnel) → String → S → S
    unfolding check_all switch_over first_online
    check_tunnels none token s = s
    check_tunnels (some []) token s = s
    check_tunnels (some (t ∷ ts)) token s =
        if token == ""
        then s
        else switch_over (probe t) (first_online (t ∷ ts)) (check_all (t ∷ ts) s)

    -- `CheckFailoverPool`.
    unfoldable pub check_failover_pool : String → S → S
    unfolding check_tunnels list_failover_tunnels
    check_failover_pool token s = check_tunnels (list_failover_tunnels tunnels s) token s

    -- `CheckFailoverPool` with the token of the stored credential; `decrypt` and `password` are as in
    -- `credential_token`.
    unfoldable pub failover_round :
        Table S UpstreamCredential → (String → Option String) → (String → Option String) → S → S
    unfolding check_failover_pool credential_token find_credential_by_provider
    failover_round credentials decrypt password s =
        check_failover_pool
          (credential_token decrypt password
            (success (find_credential_by_provider credentials "chmlfrp" s)))
          s
