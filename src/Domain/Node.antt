-- ===== src/Domain/Node.antt =====
-- frp-backend/internal/domain/types.go and integration_types.go: the nodes. `F` are the floating-point
-- numbers of a speed. A latency is an average that was measured, never negative, and the metadata is
-- the text of its JSON, "" if there is none.
use ashan_frp.Base.{ℕ, String, Bool, true, false, Option, none, [], ◌∷◌, any}
use ashan_frp.Base.{◌==◌, string_eq, if◌then◌else◌}
use ashan_frp.Base.Int.{ℤ}
use ashan_frp.Base.Text.{to_lower, contains}

abbrev pub node_status_active : String
node_status_active = "active"

abbrev pub node_status_archived : String
node_status_archived = "archived"

abbrev pub health_online : String
health_online = "online"

abbrev pub health_offline : String
health_offline = "offline"

abbrev pub health_unknown : String
health_unknown = "unknown"

pub record Node (F : Type 0) : Type 0 where
  pub id : String
  pub display_name : String
  pub provider : String
  pub node_type : String
  pub endpoint_url : String
  pub region : String
  pub status : String
  pub health_status : String
  pub canonical_name : String
  pub external_id : String
  pub is_preferred_node : Bool
  pub web_supported : Bool
  pub notes : String
  pub fangyu : String
  pub real_ip : String
  pub latency_ms : ℕ
  pub speed_mbps : F
  pub last_speed_tested_at : Option ℕ
  pub metadata_json : String
  pub created_at : ℕ
  pub updated_at : ℕ

-- The zero value, with the zero of the floating-point numbers.
abbrev pub zero_node : {F : Type 0} → F → Node F
zero_node zero = record {
  id = "";
  display_name = "";
  provider = "";
  node_type = "";
  endpoint_url = "";
  region = "";
  status = "";
  health_status = "";
  canonical_name = "";
  external_id = "";
  is_preferred_node = false;
  web_supported = false;
  notes = "";
  fangyu = "";
  real_ip = "";
  latency_ms = 0;
  speed_mbps = zero;
  last_speed_tested_at = none;
  metadata_json = "";
  created_at = 0;
  updated_at = 0;
}

-- The body of a request; the metadata is none where it is left out.
pub record NodeInput : Type 0 where
  pub display_name : String
  pub provider : String
  pub node_type : String
  pub endpoint_url : String
  pub region : String
  pub status : String
  pub canonical_name : String
  pub metadata_json : Option String

-- A node as ChmlFrp lists it; the other fields of the answer are not read.
pub record ChmlFrpNode : Type 0 where
  pub node_token : String
  pub id : ℕ
  pub ip : String
  pub real_ip : String
  pub name : String
  pub area : String
  pub fangyu : String
  pub http_port : ℤ
  pub https_port : ℤ
  pub node_group : String
  pub notes : String
  pub port : ℤ

-- `Node.Match`.
unfoldable pub match_node : {F : Type 0} → String → Node F → Bool
match_node q n =
    if q == ""
    then true
    else any (λ f. contains (to_lower f) (to_lower q))
        (n.id ∷ n.display_name ∷ n.provider ∷ n.node_type ∷ n.endpoint_url ∷ n.region ∷ n.status
          ∷ n.health_status ∷ n.canonical_name ∷ n.external_id ∷ [])

-- The address that a speed test dials.
unfoldable pub target_ip : {F : Type 0} → Node F → String
target_ip n = if n.real_ip == "" then n.endpoint_url else n.real_ip
