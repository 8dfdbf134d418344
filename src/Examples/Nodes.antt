-- ===== src/Examples/Nodes.antt =====
-- The nodes at concrete answers: the speed is a number of megabits.
use ashan_frp.Base.{
  ℕ, ◌≡◌, ◌⊎◌, refl, sym, ◌∙◌, String, true, false, some, none, [], ◌∷◌, arith, eq_iff,
}
use ashan_frp.Base.{◌==◌, string_eq}
use ashan_frp.Base.Text.{trim_space}
use ashan_frp.Base.Int.{pos}
use ashan_frp.Domain.Node.{Node, zero_node, ChmlFrpNode, target_ip, health_online}
use ashan_frp.Repository.{IsTable}
use ashan_frp.Repository.Memory.{memory_table}
use ashan_frp.Repository.Parts.{part_table}
use ashan_frp.Repository.Nodes.{list_preferred_nodes, list_candidate_nodes}
use ashan_frp.Worker.Nodes.{
  SpeedTestResult, Lookups, sync_all, monitor_node, test_candidates, has_online,
  ensure_emergency_best_node_selection,
}
use ashan_frp.Worker.Nodes.Stale.{stamp_node, IsRowKept, sync_all-IsKept, monitor_node-stale}
use ashan_frp.Worker.Nodes.Chosen.{AreAtLeast, IsSelected, ensure-IsSelected}
use ashan_frp.Http.Request.{Request}
use ashan_frp.Http.Nodes.{set_preferred_pool}
use ashan_frp.Http.Nodes.Tested.{IsPool, set_preferred_pool-IsPool}
use ashan_frp.Examples.Database.{
  Database, no_rows, nodes, audits, nodes-IsTable, audits-nodes-IsApart,
}

abbrev tokyo : Node ℕ
tokyo = record (zero_node 0) {
  id = "tokyo";
  real_ip = "192.0.2.7";
  web_supported = true;
  latency_ms = 80;
  last_speed_tested_at = some 5;
}

abbrev database : Database
database = (nodes.save tokyo no_rows).0

-- Every node is reached in 30 milliseconds.
abbrev reached : String → SpeedTestResult ℕ
reached ip = record { real_ip = ip; latency_ms = 30; speed_mbps = 32; reachable = true; error = "" }

law : IsTable nodes (λ n. n.id) stamp_node
law = nodes-IsTable stamp_node (λ n. (n.created_at, n.updated_at, refl))

saves : (n : Node ℕ) (d : Database) → (nodes.save n d).1 ≡ true
unfolding part_table memory_table
saves n d = refl

here : nodes.row "tokyo" database ≡ some tokyo
unfolding part_table memory_table
here = refl

found : nodes.first (λ n. ◌==◌ n.id "tokyo") database ≡ some tokyo
unfolding part_table memory_table
found = refl

abbrev no_lookups : Lookups
no_lookups = record {
  lookup_host = λ name. [];
  is_ip = λ text. true;
  is_ipv4 = λ text. true;
  get_node_info = λ id. none;
}

abbrev listed : ChmlFrpNode
listed = record {
  node_token = "";
  id = 7;
  ip = "192.0.2.8";
  real_ip = "";
  name = "tokyo";
  area = "Tokyo";
  fangyu = "";
  http_port = pos 80;
  https_port = pos 443;
  node_group = "web";
  notes = "";
  port = pos 7000;
}

sync_all-IsKept_example :
    IsRowKept 0 nodes audits law "tokyo" tokyo
      (sync_all 0 nodes audits trim_space 9 no_lookups (listed ∷ []) database)
sync_all-IsKept_example =
    sync_all-IsKept 0 nodes audits law trim_space 9 no_lookups (listed ∷ []) tokyo database "tokyo"
      here

address : target_ip tokyo ≡ "192.0.2.7"
unfolding target_ip
address = refl

monitor_node-stale_example :
    (r : Node ℕ) × (nodes.row "tokyo" (monitor_node 0 nodes audits reached 9 "tokyo" database)
      ≡ some r)
    × (r.health_status ≡ health_online)
    × (r.latency_ms ≡ 80)
    × (r.speed_mbps ≡ 0)
    × (r.last_speed_tested_at ≡ some 5)
monitor_node-stale_example =
    monitor_node-stale 0 nodes audits law reached 9 "tokyo" database tokyo found
      (λ e. ground (sym address ∙ e, arith, eq_iff "192.0.2.7" "")) refl saves

no_preferred : has_online (list_preferred_nodes nodes database) ≡ false
unfolding list_preferred_nodes part_table memory_table
no_preferred = refl

candidates : list_candidate_nodes nodes database ≡ some (tokyo ∷ [])
unfolding list_candidate_nodes part_table memory_table
candidates = refl

ensure-IsSelected_example :
    AreAtLeast 0 nodes audits reached 99999 (tokyo ∷ [])
      × (ensure_emergency_best_node_selection 0 nodes audits reached 9 database
          ≡ test_candidates 0 nodes audits reached 9 (tokyo ∷ []) database)
    ⊎ IsSelected 0 nodes audits reached database
        (tokyo ∷ [])
        (ensure_emergency_best_node_selection 0 nodes audits reached 9 database)
ensure-IsSelected_example =
    ensure-IsSelected 0 nodes audits reached law audits-nodes-IsApart saves 9 database (tokyo ∷ [])
      no_preferred candidates

abbrev request : Request
request = record {
  account_id = "acc_1";
  account_name = "admin";
  request_id = "req_1";
  trace_id = "trc_1";
  client_ip = "192.0.2.1";
  user_agent = "curl";
}

set_preferred_pool-IsPool_example :
    IsPool 0 nodes audits reached request law audits-nodes-IsApart 9 "tokyo" true database
      (set_preferred_pool 0 nodes audits reached request 9 "tokyo" (some true) database)
set_preferred_pool-IsPool_example =
    set_preferred_pool-IsPool 0 nodes audits reached request law audits-nodes-IsApart 9 "tokyo" true
      database
