-- ===== src/Worker/Nodes.antt =====
-- frp-backend/internal/worker/node_sync_worker.go and frp-backend/internal/integration/chmlfrp/
-- speedtest.go: the nodes that are in use are measured, those that ChmlFrp lists are written to the
-- database, and where no preferred node is online one is chosen. What a node answers to a speed test,
-- the lookups of addresses and the lists of ChmlFrp are arguments.
pub mod Stale
pub mod Chosen
use ashan_frp.Base.{
  ℕ, zero, suc, ◌+◌, ◌*◌, ◌/◌, ltb, nat_beq, String, ◌<>◌, Bool, true, false, not, ◌&&◌, ◌||◌,
  Option, none, some, List, [], ◌∷◌, any,
}
use ashan_frp.Base.{◌==◌, string_eq, if◌then◌else◌}
use ashan_frp.Base.Int.{is_positive}
use ashan_frp.Base.Text.{trim_space, to_lower, contains}
use ashan_frp.Domain.Node.{
  Node, zero_node, ChmlFrpNode, target_ip, node_status_active, health_online, health_offline,
  health_unknown,
}
use ashan_frp.Domain.Account.{AuditLog}
use ashan_frp.Domain.Tunnel.{Tunnel}
use ashan_frp.Domain.Credential.{UpstreamCredential, credential_token}
use ashan_frp.Repository.{Table, Lookup, success}
use ashan_frp.Repository.Credentials.{find_credential_by_provider}
use ashan_frp.Repository.Nodes.{
  find_node_by_id, get_in_use_node_map, list_preferred_nodes, list_candidate_nodes,
  update_node_speed_test,
}

pub record SpeedTestResult (F : Type 0) : Type 0 where
  pub real_ip : String
  pub latency_ms : ℕ
  pub speed_mbps : F
  pub reachable : Bool
  pub error : String

abbrev pub one_millisecond : ℕ
one_millisecond = 1000000

-- The number and the sum of the connections that were made.
abbrev successes : List (Option ℕ) → ℕ
successes [] = 0
successes (none ∷ ds) = successes ds
successes (some d ∷ ds) = suc (successes ds)

abbrev total : List (Option ℕ) → ℕ
total [] = 0
total (none ∷ ds) = total ds
total (some d ∷ ds) = d + total ds

-- `MeasureNodeSpeed`, from the times of the three connections, none for one that failed; `estimate`
-- is the speed of a latency.
unfoldable pub measure_node_speed :
    {F : Type 0} → F → (ℕ → F) → String → List (Option ℕ) → SpeedTestResult F
measure_node_speed zero_speed estimate ip dials =
    let unreached : SpeedTestResult _ = record {
      real_ip = ip;
      latency_ms = 0;
      speed_mbps = zero_speed;
      reachable = false;
      error = "TCP dial connection timed out";
    } in
    let latency = total dials / successes dials / one_millisecond in
    if ip == ""
    then record unreached { error = "target IP is empty" }
    else if nat_beq (successes dials) 0
    then unreached
    else record unreached {
      latency_ms = latency;
      speed_mbps = estimate latency;
      reachable = true;
      error = "";
    }

-- An audit entry of the worker.
abbrev pub system_entry : String → String → String → String → AuditLog
system_entry action resource_id outcome detail = record {
  account_id = "system";
  account_name = "NodeSyncWorker";
  action = action;
  resource_type = "node";
  resource_id = resource_id;
  detail_json = detail;
  request_id = "";
  trace_id = "";
  outcome = outcome;
  ip_address = "";
  user_agent = "";
}

-- Whether a node can serve web sites.
unfoldable pub web_supported : ChmlFrpNode → Bool
web_supported raw =
    let notes = trim_space (to_lower raw.notes) in
    let area = trim_space (to_lower raw.area) in
    let name = trim_space (to_lower raw.name) in
    is_positive raw.http_port
    || is_positive raw.https_port
    || contains notes "web"
    || contains notes "建站"
    || contains notes "http"
    || contains area "建站"
    || contains name "web"
    || contains name "建站"
    || trim_space (to_lower raw.node_group) == "web"

-- The lookups: the addresses of a name, [] on an error; whether a text is an address, and one of IPv4;
-- the real address and the address that ChmlFrp tells of a node.
pub record Lookups : Type 0 where
  pub lookup_host : String → List String
  pub is_ip : String → Bool
  pub is_ipv4 : String → Bool
  pub get_node_info : String → Option (String × String)

-- The first address of IPv4, or what there was.
unfoldable pub first_ipv4 : (String → Bool) → String → List String → String
first_ipv4 is_ipv4 ip [] = ip
first_ipv4 is_ipv4 ip (a ∷ as1) =
    let rest = first_ipv4 is_ipv4 ip as1 in if is_ipv4 a then a else rest

abbrev pub info_ip : Option (String × String) → String
info_ip none = ""
info_ip (some (real_ip, ip)) = if real_ip == "" then ip else real_ip

-- The address of a node: what is listed, what its name stands for, what ChmlFrp tells, and a name
-- that is left is looked up.
unfoldable pub node_ip : Lookups → ChmlFrpNode → String
unfolding first_ipv4
node_ip l raw =
    let listed = if trim_space raw.ip == "" then trim_space raw.real_ip else trim_space raw.ip in
    let named =
      if listed == ""
      then first_ipv4 l.is_ipv4 "" (l.lookup_host (raw.name <> ".ip.chmlfrp.cn"))
      else listed in
    let told = if named == "" then info_ip (l.get_node_info (trim_space raw.name)) else named in
    if told == "" || l.is_ip told then told else first_ipv4 l.is_ipv4 told (l.lookup_host told)

abbrev pub is_online : {F : Type 0} → Node F → Bool
is_online n = n.health_status == health_online

-- A node of the list is online, if it could be read.
abbrev pub has_online : {F : Type 0} → Option (List (Node F)) → Bool
has_online none = false
has_online (some ns) = any is_online ns

module _ {F : Type 0} (zero_speed : F) where
  -- The row of a node that is known, and of a new one; the worker trims the notes.
  unfoldable pub refreshed : (String → String) → ℕ → String → ChmlFrpNode → Node F → Node F
  unfolding web_supported
  refreshed trim now ip raw n = record n {
    display_name = raw.name;
    notes = trim raw.notes;
    fangyu = trim raw.fangyu;
    web_supported = web_supported raw;
    real_ip = if ip == "" then n.real_ip else ip;
    endpoint_url = if ip == "" then n.endpoint_url else ip;
    region = if raw.area == "" then n.region else raw.area;
    updated_at = now;
  }

  unfoldable pub listed_node : (String → String) → ℕ → String → ChmlFrpNode → Node F
  unfolding web_supported
  listed_node trim now ip raw = record (zero_node zero_speed) {
    id = trim_space raw.name;
    display_name = raw.name;
    provider = "chmlfrp";
    node_type = "frp_node";
    endpoint_url = ip;
    region = raw.area;
    status = node_status_active;
    health_status = health_unknown;
    canonical_name = raw.name;
    web_supported = web_supported raw;
    notes = trim raw.notes;
    fangyu = trim raw.fangyu;
    real_ip = ip;
    is_preferred_node = false;
    created_at = now;
    updated_at = now;
  }

  module _ {S : Type 0} (nodes : Table S (Node F)) (audits : Table S AuditLog) where
    store_node : (String → String) → ℕ → String → ChmlFrpNode → Option (Node F) → S → S
    unfolding refreshed listed_node
    store_node trim now ip raw none s = (nodes.create (listed_node trim now ip raw) s).0
    store_node trim now ip raw (some n) s = (nodes.save (refreshed trim now ip raw n) s).0

    -- One node of the list, and all of them.
    unfoldable pub sync_node : (String → String) → ℕ → Lookups → ChmlFrpNode → S → S
    unfolding store_node find_node_by_id node_ip
    sync_node trim now l raw s =
        let id = trim_space raw.name in
        if id == ""
        then s
        else store_node trim now (node_ip l raw) raw (find_node_by_id nodes id s).pointer s

    unfoldable pub sync_all : (String → String) → ℕ → Lookups → List ChmlFrpNode → S → S
    unfolding sync_node
    sync_all trim now l [] s = s
    sync_all trim now l (raw ∷ raws) s = sync_all trim now l raws (sync_node trim now l raw s)

    module _ (measure : String → SpeedTestResult F) where
      measured : ℕ → Node F → SpeedTestResult F → S → S
      unfolding update_node_speed_test
      measured now n res s =
          if res.reachable
          then (nodes.save (record n { health_status = health_online })
              (update_node_speed_test nodes now n.id n.is_preferred_node res.latency_ms
                res.speed_mbps res.real_ip s).0).0
          else (audits.create
              (system_entry "node.in_use_warning_offline" n.id "failure"
                ("【使用中节点失效警告】节点 " <> (n.id <> " 当前关联穿透隧道，但 TCP 测速超时离线，请关注！")))
              (nodes.save (record n { health_status = health_offline }) s).0).0

      on_node : ℕ → Option (Node F) → S → S
      unfolding measured
      on_node now none s = s
      on_node now (some n) s =
          if target_ip n == "" then s else measured now n (measure (target_ip n)) s

      -- One node of `MonitorInUseNodes`.
      unfoldable pub monitor_node : ℕ → String → S → S
      unfolding on_node find_node_by_id
      monitor_node now id s = on_node now (find_node_by_id nodes id s).pointer s

      unfoldable pub monitor_each : ℕ → List (String × ℕ) → S → S
      unfolding monitor_node
      monitor_each now [] s = s
      monitor_each now ((id, count) ∷ ids) s = monitor_each now ids (monitor_node now id s)

      abbrev in_use : Option (List (String × ℕ)) → List (String × ℕ)
      in_use none = []
      in_use (some ids) = ids

      -- `MonitorInUseNodes`, in one of the orders that a map can be read in.
      unfoldable pub monitor_in_use_nodes : Table S Tunnel → ℕ → S → S
      unfolding monitor_each get_in_use_node_map
      monitor_in_use_nodes tunnels now s =
          monitor_each now (in_use (get_in_use_node_map tunnels s)) s

      -- The measurement of a candidate: none if it is not one for web sites, has no address or is not
      -- reached.
      unfoldable pub candidate_latency : Node F → Option ℕ
      candidate_latency n =
          let res = measure (target_ip n) in
          if n.web_supported && not (target_ip n == "") && res.reachable
          then some res.latency_ms
          else none

      -- The best node so far and its latency, after one more candidate.
      improve : Option (Node F) × ℕ → Node F → Option ℕ → Option (Node F) × ℕ
      improve best n none = best
      improve (best, latency) n (some l) = if ltb l latency then (some n, l) else (best, latency)

      unfoldable pub best_node : Option (Node F) × ℕ → List (Node F) → Option (Node F)
      unfolding candidate_latency improve
      best_node best [] = best.0
      best_node best (n ∷ ns) = best_node (improve best n (candidate_latency n)) ns

      test_candidate : ℕ → Node F → Option ℕ → S → S
      unfolding update_node_speed_test
      test_candidate now n none s = s
      test_candidate now n (some l) s =
          let res = measure (target_ip n) in
          (update_node_speed_test nodes now n.id false l res.speed_mbps res.real_ip s).0

      -- What the scan writes of each candidate that is reached.
      unfoldable pub test_candidates : ℕ → List (Node F) → S → S
      unfolding candidate_latency test_candidate
      test_candidates now [] s = s
      test_candidates now (n ∷ ns) s =
          test_candidates now ns (test_candidate now n (candidate_latency n) s)

      prefer : Option (Node F) → S → S
      prefer none s = s
      prefer (some n) s =
          (audits.create
            (system_entry "node.emergency_auto_select" n.id "success" (
              "Automatically selected best candidate node "
              <> (n.id <> " due to empty preferred pool")))
            (nodes.save (record n { is_preferred_node = true }) s).0).0

      scan : ℕ → Option (List (Node F)) → S → S
      unfolding prefer best_node test_candidates
      scan now none s = s
      scan now (some ns) s = prefer (best_node (none, 99999) ns) (test_candidates now ns s)

      -- `EnsureEmergencyBestNodeSelection`.
      unfoldable pub ensure_emergency_best_node_selection : ℕ → S → S
      unfolding scan list_preferred_nodes list_candidate_nodes
      ensure_emergency_best_node_selection now s =
          if has_online (list_preferred_nodes nodes s)
          then s
          else scan now (list_candidate_nodes nodes s) s

      written_nodes : ℕ → Lookups → Option (List ChmlFrpNode) → S → S
      unfolding sync_all ensure_emergency_best_node_selection
      written_nodes now l none s = s
      written_nodes now l (some []) s = s
      written_nodes now l (some (raw ∷ raws)) s =
          ensure_emergency_best_node_selection now (sync_all trim_space now l (raw ∷ raws) s)

      -- `SyncChmlFrpNodes`, with the list of ChmlFrp for a token, none on an error.
      unfoldable pub sync_chmlfrp_nodes :
          Table S UpstreamCredential
          → (String → Option String)
          → (String → Option String)
          → (String → Option (List ChmlFrpNode))
          → ℕ
          → Lookups
          → S
          → S
      unfolding written_nodes credential_token find_credential_by_provider
      sync_chmlfrp_nodes credentials decrypt password get_nodes now l s =
          let token =
            credential_token decrypt password
              (success (find_credential_by_provider credentials "chmlfrp" s)) in
          if token == "" then s else written_nodes now l (get_nodes token) s
