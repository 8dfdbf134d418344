-- ===== src/Repository/Nodes.antt =====
-- frp-backend/internal/repository/repository.go: the queries on nodes.
use ashan_frp.Base.{
  ℕ, suc, ltb, nat_beq, String, Bool, false, not, ◌&&◌, ◌||◌, Option, none, some, List, [], ◌∷◌,
  any,
}
use ashan_frp.Base.{◌==◌, string_eq, if◌then◌else◌}
use ashan_frp.Base.Text.{contains, to_lower}
use ashan_frp.Domain.Node.{Node, node_status_archived}
use ashan_frp.Domain.Tunnel.{Tunnel}
use ashan_frp.Repository.{Table, Lookup, or_nil}
use ashan_frp.Repository.Jobs.{asked}

pub record NodeFilter : Type 0 where
  pub q : String
  pub provider : String
  pub status : String
  pub health_status : String

abbrev pub all_nodes : NodeFilter
all_nodes = record { q = ""; provider = ""; status = ""; health_status = "" }

-- `LIKE '%q%'`, for a text without wildcards: it ignores the case of ASCII letters.
abbrev like : String → String → Bool
like q field = contains (to_lower field) (to_lower q)

module _ {F : Type 0} where
  abbrev pub matches : NodeFilter → Node F → Bool
  matches f n =
      (f.q == "" || like f.q n.display_name || like f.q n.canonical_name || like f.q n.endpoint_url)
      && asked f.provider n.provider
      && asked f.status n.status
      && asked f.health_status n.health_status

  -- `updated_at DESC`.
  abbrev pub newer : Node F → Node F → Bool
  newer a b = ltb b.updated_at a.updated_at

  -- `latency_ms ASC, updated_at DESC`.
  abbrev pub faster : Node F → Node F → Bool
  faster a b =
      ltb a.latency_ms b.latency_ms
      || (nat_beq a.latency_ms b.latency_ms && ltb b.updated_at a.updated_at)

  -- The columns that a speed test writes; the address only where there is one.
  unfoldable pub speed_tested : ℕ → Bool → ℕ → F → String → Node F → Node F
  speed_tested now preferred latency speed real_ip n = record n {
    is_preferred_node = preferred;
    latency_ms = latency;
    speed_mbps = speed;
    last_speed_tested_at = some now;
    updated_at = now;
    real_ip = if real_ip == "" then n.real_ip else real_ip;
  }

  module _ {S : Type 0} (T : Table S (Node F)) where
    unfoldable pub find_node_by_id : String → S → Lookup (Node F)
    find_node_by_id id s = or_nil (T.first (λ n. n.id == id) s)

    unfoldable pub list_nodes : NodeFilter → S → Option (List (Node F))
    list_nodes f s = T.find (matches f) newer none s

    unfoldable pub list_preferred_nodes : S → Option (List (Node F))
    list_preferred_nodes s =
        T.find (λ n. n.is_preferred_node && not (n.status == node_status_archived)) faster none s

    unfoldable pub list_candidate_nodes : S → Option (List (Node F))
    list_candidate_nodes s =
        T.find (λ n. not n.is_preferred_node && not (n.status == node_status_archived)) faster none
          s

    unfoldable pub update_node_speed_test : ℕ → String → Bool → ℕ → F → String → S → S × Bool
    unfolding speed_tested
    update_node_speed_test now id preferred latency speed real_ip s =
        T.update (λ n. n.id == id) (speed_tested now preferred latency speed real_ip) s

-- How many entries of the list have this node.
count_node : String → List Tunnel → ℕ
count_node id [] = 0
count_node id (t ∷ ts) = let rest = count_node id ts in if t.node_id == id then suc rest else rest

-- `GROUP BY node_id`: each node once, with the number of its tunnels; `seen` are those before.
group_nodes : List String → List Tunnel → List Tunnel → List (String × ℕ)
unfolding count_node
group_nodes seen ts [] = []
group_nodes seen ts (t ∷ rest) =
    let again = group_nodes seen ts rest in
    let on = group_nodes (t.node_id ∷ seen) ts rest in
    if any (λ id. id == t.node_id) seen then again else (t.node_id, count_node t.node_id ts) ∷ on

grouped : Option (List Tunnel) → Option (List (String × ℕ))
unfolding group_nodes
grouped none = none
grouped (some ts) = some (group_nodes [] ts ts)

-- `GetInUseNodeMap`: the nodes of the tunnels that are enabled or running.
unfoldable pub get_in_use_node_map : {S : Type 0} → Table S Tunnel → S → Option (List (String × ℕ))
unfolding grouped
get_in_use_node_map tunnels s = grouped (
    tunnels.find
      (λ t. (t.desired_state == "enabled" || t.actual_state == "running") && not (t.node_id == ""))
      (λ a b. false) none s)
