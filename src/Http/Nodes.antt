-- ===== src/Http/Nodes.antt =====
-- frp-backend/internal/http/handlers/node.go: the requests on nodes. What a node answers to a speed
-- test, the lookups of addresses and the list of ChmlFrp are arguments.
pub mod Tested
use ashan_frp.Base.{ℕ, String, Bool, true, false, Option, none, some, List, [], ◌∷◌, select, map}
use ashan_frp.Base.{◌==◌, string_eq, if◌then◌else◌}
use ashan_frp.Domain.Node.{
  Node, zero_node, NodeInput, ChmlFrpNode, match_node, target_ip, node_status_active, health_online,
  health_offline, health_unknown,
}
use ashan_frp.Domain.Job.{Job, job_status_queued}
use ashan_frp.Domain.Account.{AuditLog}
use ashan_frp.Domain.Tunnel.{Tunnel}
use ashan_frp.Domain.Credential.{UpstreamCredential, credential_token}
use ashan_frp.Repository.{Table, Lookup, success}
use ashan_frp.Repository.Credentials.{find_credential_by_provider}
use ashan_frp.Repository.Nodes.{
  NodeFilter, all_nodes, find_node_by_id, list_nodes, get_in_use_node_map, update_node_speed_test,
}
use ashan_frp.Worker.Nodes.{SpeedTestResult, Lookups, sync_all}
use ashan_frp.Http.Request.{Request, Reply, without_body, with_body, audit_entry}
use ashan_frp.Http.Response.{Response, respond, refuse}

abbrev pub or_text : String → String → String
or_text a b = if a == "" then b else a

abbrev pub or_json : Option String → String → String
or_json none old = old
or_json (some json) old = json

-- The count of a node in the map, 0 if it is not there.
abbrev count_of : String → List (String × ℕ) → ℕ
count_of id [] = 0
count_of id ((k, n) ∷ rest) = let other = count_of id rest in if k == id then n else other

abbrev counts_of : Option (List (String × ℕ)) → List (String × ℕ)
counts_of none = []
counts_of (some counts) = counts

module _ {F : Type 0} where
  -- The node that `Create` builds, and the assignments of `Update`.
  unfoldable pub new_node : F → ℕ → String → NodeInput → Node F
  new_node zero_speed now id i = record (zero_node zero_speed) {
    id = id;
    display_name = i.display_name;
    provider = i.provider;
    node_type = i.node_type;
    endpoint_url = i.endpoint_url;
    region = i.region;
    status = or_text i.status node_status_active;
    health_status = health_unknown;
    canonical_name = i.canonical_name;
    metadata_json = or_json i.metadata_json "";
    created_at = now;
    updated_at = now;
  }

  unfoldable pub patch_node : ℕ → NodeInput → Node F → Node F
  patch_node now i n = record n {
    display_name = or_text i.display_name n.display_name;
    provider = or_text i.provider n.provider;
    node_type = or_text i.node_type n.node_type;
    endpoint_url = or_text i.endpoint_url n.endpoint_url;
    region = or_text i.region n.region;
    status = or_text i.status n.status;
    canonical_name = or_text i.canonical_name n.canonical_name;
    metadata_json = or_json i.metadata_json n.metadata_json;
    updated_at = now;
  }

-- The job that `Sync` queues.
unfoldable pub refresh_job : String → Request → Job
refresh_job id c = record {
  id = id;
  kind = "node.refresh";
  target_type = "nodes";
  target_id = "nodes";
  channel = "subject:nodes";
  status = job_status_queued;
  attempt_count = 1;
  max_attempts = 5;
  title = "Refresh nodes";
  payload_json = "{\"scope\":\"all\"}";
  result_json = "";
  retryable = true;
  next_retry_at = none;
  started_at = none;
  completed_at = none;
  error_message = "";
  created_by = c.account_id;
  created_at = 0;
  updated_at = 0;
}

module _ {F : Type 0} {S : Type 0} (zero_speed : F) (nodes : Table S (Node F))
    (audits : Table S AuditLog) (measure : String → SpeedTestResult F) (c : Request) where
  unfoldable pub audit : String → String → S → S
  audit action resource_id s =
      (audits.create (audit_entry c c.account_name action "node" resource_id) s).0

  -- The start of a handler, from the node of the request that was looked up.
  on_found : {A : Type 0} → Lookup (Node F) → (Node F → S → Reply S A) → S → Reply S A
  on_found found k s =
      if found.failed
      then without_body s (refuse 404 "NOT_FOUND")
      else elim found.pointer [ none ↦ without_body s (refuse 404 "NOT_FOUND") | some n ↦ k n s ]

  unfoldable pub on_node : {A : Type 0} → String → (Node F → S → Reply S A) → S → Reply S A
  unfolding on_found find_node_by_id
  on_node id k s = on_found (find_node_by_id nodes id s) k s

  listed : Table S Tunnel → String → Option (List (Node F)) → S → Reply S (List (Node F × ℕ))
  unfolding get_in_use_node_map
  listed tunnels q none s = without_body s (refuse 500 "INTERNAL")
  listed tunnels q (some ns) s =
      let counts = counts_of (get_in_use_node_map tunnels s) in
      with_body s (respond 200) (map (λ n. (n, count_of n.id counts)) (select (match_node q) ns))

  -- `List`; each node with the number of its tunnels in use, 0 where the answer has none.
  unfoldable pub list_all_nodes :
      Table S Tunnel → NodeFilter → String → S → Reply S (List (Node F × ℕ))
  unfolding listed list_nodes
  list_all_nodes tunnels f q s = listed tunnels q (list_nodes nodes (record f { q = "" }) s) s

  unfoldable pub get_node : String → S → Reply S (Node F)
  unfolding on_node
  get_node id s = on_node id (λ n s. with_body s (respond 200) n) s

  created : Node F → S × Bool → Reply S (Node F)
  unfolding audit
  created n (s, false) = without_body s (refuse 500 "INTERNAL")
  created n (s, true) = with_body (audit "node.create" n.id s) (respond 201) n

  -- `Create`; none is a body that does not bind.
  unfoldable pub create_node : ℕ → String → Option NodeInput → S → Reply S (Node F)
  unfolding created new_node
  create_node now id none s = without_body s (refuse 400 "INVALID_REQUEST")
  create_node now id (some i) s =
      let n = new_node zero_speed now id i in created n (nodes.create n s)

  updated : Node F → S × Bool → Reply S (Node F)
  updated n (s, false) = without_body s (refuse 500 "INTERNAL")
  updated n (s, true) = with_body s (respond 200) n

  patched : ℕ → Option NodeInput → Node F → S → Reply S (Node F)
  unfolding updated patch_node
  patched now none n s = without_body s (refuse 400 "INVALID_REQUEST")
  patched now (some i) n s = let n' = patch_node now i n in updated n' (nodes.save n' s)

  -- `Update`.
  unfoldable pub update_node : ℕ → String → Option NodeInput → S → Reply S (Node F)
  unfolding on_node patched
  update_node now id i s = on_node id (patched now i) s

  refreshed : ℕ → Lookups → Option (List ChmlFrpNode) → S → S
  unfolding sync_all
  refreshed now l none s = s
  refreshed now l (some raws) s = sync_all zero_speed nodes audits (λ t. t) now l raws s

  -- `Sync`, with the list of ChmlFrp for a token, none on an error.
  unfoldable pub sync_nodes :
      Table S Job
      → Table S UpstreamCredential
      → (String → Option String)
      → (String → Option String)
      → (String → Option (List ChmlFrpNode))
      → ℕ
      → String
      → Lookups
      → S
      → Reply S (Option (List (Node F)))
  unfolding refreshed refresh_job audit list_nodes credential_token find_credential_by_provider
  sync_nodes jobs credentials decrypt password get_nodes now id l s =
      let token =
        credential_token decrypt password
          (success (find_credential_by_provider credentials "chmlfrp" s)) in
      let written = if token == "" then s else refreshed now l (get_nodes token) s in
      let queued = audit "node.sync" id (jobs.create (refresh_job id c) written).0 in
      with_body queued (respond 202) (list_nodes nodes all_nodes queued)

  -- The node and the database after a speed test.
  unfoldable pub test_node : ℕ → Node F → SpeedTestResult F → S → Node F × S
  unfolding update_node_speed_test
  test_node now n res s =
      let offline = record n { health_status = health_offline } in
      let online = record n {
        latency_ms = res.latency_ms;
        speed_mbps = res.speed_mbps;
        health_status = health_online;
      } in
      if res.reachable
      then (
        online,
        (nodes.save online
            (update_node_speed_test nodes now n.id n.is_preferred_node res.latency_ms res.speed_mbps
              res.real_ip s).0).0,
      )
      else (offline, (nodes.save offline s).0)

  -- `SpeedTest`.
  unfoldable pub speed_test : ℕ → String → S → Reply S (Node F × SpeedTestResult F)
  unfolding on_node test_node audit
  speed_test now id s =
      on_node id
        (λ n s.
          let res = measure (target_ip n) in
          let (tested, s') = test_node now n res s in
          with_body (audit "node.speedtest" n.id s') (respond 200) (tested, res))
        s

  -- One node of `SpeedTestAll`, and all of them.
  unfoldable pub test_one : ℕ → Node F → SpeedTestResult F → S → S
  unfolding update_node_speed_test
  test_one now n res s =
      if res.reachable
      then (nodes.save (record n { health_status = health_online })
          (update_node_speed_test nodes now n.id n.is_preferred_node res.latency_ms res.speed_mbps
            res.real_ip s).0).0
      else (nodes.save (record n { health_status = health_offline }) s).0

  unfoldable pub test_all : ℕ → List (Node F) → S → S × List (String × SpeedTestResult F)
  unfolding test_one
  test_all now [] s = (s, [])
  test_all now (n ∷ ns) s =
      let res = measure (target_ip n) in
      let skipped = test_all now ns s in
      let (s', results) = test_all now ns (test_one now n res s) in
      if target_ip n == "" then skipped else (s', (n.id, res) ∷ results)

  tested_all : ℕ → Option (List (Node F)) → S → Reply S (List (String × SpeedTestResult F))
  unfolding test_all audit
  tested_all now none s = without_body s (refuse 500 "DB_ERROR")
  tested_all now (some ns) s =
      let (s', results) = test_all now ns s in
      with_body (audit "node.speedtest_all" "all" s') (respond 200) results

  -- `SpeedTestAll`.
  unfoldable pub speed_test_all : ℕ → S → Reply S (List (String × SpeedTestResult F))
  unfolding tested_all list_nodes
  speed_test_all now s = tested_all now (list_nodes nodes all_nodes s) s

  preferred : Node F → S × Bool → Reply S (Node F)
  unfolding audit
  preferred n (s, false) = without_body s (refuse 500 "DB_ERROR")
  preferred n (s, true) = with_body (audit "node.set_preferred_pool" n.id s) (respond 200) n

  -- `SetPreferredPool`; none is a body that does not bind.
  unfoldable pub set_preferred_pool : ℕ → String → Option Bool → S → Reply S (Node F)
  unfolding on_node preferred update_node_speed_test
  set_preferred_pool now id none s = without_body s (refuse 400 "INVALID_REQUEST")
  set_preferred_pool now id (some asked) s =
      on_node id
        (λ n s.
          preferred (record n { is_preferred_node = asked })
            (update_node_speed_test nodes now n.id asked n.latency_ms n.speed_mbps n.real_ip s))
        s
