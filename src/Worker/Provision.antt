-- ===== src/Worker/Provision.antt =====
-- frp-backend/internal/worker/runner.go: `provisionTunnel`, the work of a job that sets a tunnel up
-- at ChmlFrp, at Cloudflare and at 1Panel. The calls of the services are parameters.
pub mod Orphaned
use ashan_frp.Base.{
  ℕ, String, ◌<>◌, Bool, true, false, ◌||◌, ◌&&◌, not, Option, none, some, List, [], ◌∷◌,
}
use ashan_frp.Base.{◌==◌, string_eq, if◌then◌else◌}
use ashan_frp.Base.Int.{ℤ}
use ashan_frp.Base.Text.{show_int}
use ashan_frp.Base.Result.{Result, ok, failed}
use ashan_frp.Domain.Tunnel.{Tunnel, zero_tunnel}
use ashan_frp.Domain.Credential.{UpstreamCredential, zero_credential}
use ashan_frp.Domain.Job.{Job}
use ashan_frp.Domain.Node.{ChmlFrpNode}
use ashan_frp.Domain.Website.{SyncState}
use ashan_frp.Worker.Queue.{job_event}
use ashan_frp.Worker.Deprovision.{Outside, pointed}
use ashan_frp.Repository.{Table, Lookup, success}
use ashan_frp.Repository.Tunnels.{find_tunnel_by_id}
use ashan_frp.Repository.Credentials.{find_credential_by_provider}

-- What is read of the payload of the job, "" for what is missing or no text.
pub record Payload : Type 0 where
  pub tunnel_id : String
  pub full_domain : String
  pub protocol : String
  pub chmlfrp_node : String

pub record CreateTunnelReq : Type 0 where
  pub tunnel_name : String
  pub node : String
  pub port_type : String
  pub local_ip : String
  pub local_port : ℤ
  pub remote_port : ℤ
  pub band_domain : String
  pub encryption : Bool
  pub compression : Bool

-- The calls of the three services, with the credential and its secret: the nodes of ChmlFrp, a tunnel
-- there; a record at Cloudflare, its name, type, content, whether it is proxied and the tunnel it is
-- for; a web site at 1Panel, its domain, target and whether it has HTTPS.
pub record Services (Z : Type 0) : Type 0 where
  pub get_nodes : UpstreamCredential → String → Z → Result (List ChmlFrpNode)
  pub create_tunnel : UpstreamCredential → String → CreateTunnelReq → Z → Z × Result String
  pub create_record :
      UpstreamCredential → String → String → String → String → Bool → String → Z → Z × Result String
  pub create_website : UpstreamCredential → String → String → String → Bool → Z → Z × Result ℤ

unfoldable pub bind : {A B Z : Type 0} → Z × Result A → (A → Z → Z × Result B) → Z × Result B
bind (z, failed e) k = (z, failed e)
bind (z, ok a) k = k a z

abbrev pub unseal : {Z : Type 0} → String → Option String → Z → Z × Result String
unseal service none z = (z, failed ("decrypt " <> (service <> " credential")))
unseal service (some secret) z = (z, ok secret)

-- The address of the node with this name, "" if it is not listed.
unfoldable pub ip_of : String → List ChmlFrpNode → String
ip_of name [] = ""
ip_of name (n ∷ ns) = let rest = ip_of name ns in if n.name == name then n.ip else rest

abbrev first_node : List ChmlFrpNode → String × String
first_node [] = ("", "")
first_node (n ∷ ns) = (n.name, n.ip)

-- The name and the address of the node: the first of the list where none is asked for.
unfoldable pub choose_node : String → List ChmlFrpNode → String × String
unfolding ip_of
choose_node node ns = if node == "" then first_node ns else (node, ip_of node ns)

unfoldable pub tunnel_req : Payload → Tunnel → String → CreateTunnelReq
tunnel_req p t node = record {
  tunnel_name = t.chmlfrp_tunnel_name;
  node = node;
  port_type = p.protocol;
  local_ip = t.local_ip;
  local_port = t.local_port;
  remote_port = t.remote_port;
  band_domain = p.full_domain;
  encryption = true;
  compression = true;
}

module _ {S Z : Type 0} (tunnels : Table S Tunnel) (credentials : Table S UpstreamCredential)
    (states : Table S SyncState) (services : Services Z) (decrypt : String → Option String)
    (report : Payload → String) where
  abbrev lift : {A : Type 0} → Result A → Z → Z × Result A
  lift r z = (z, r)

  -- The tunnel at ChmlFrp: the row with its identifier and node, and the address of the node.
  unfoldable pub at_chmlfrp :
      UpstreamCredential → Payload → Tunnel → Z → Z × Result (Tunnel × String)
  unfolding choose_node tunnel_req
  at_chmlfrp ch p t z =
      if ch.encrypted_secret == ""
      then (z, ok (t, ""))
      else bind (unseal "chmlfrp" (decrypt ch.encrypted_secret) z) (λ secret z.
        bind (lift (services.get_nodes ch secret z) z) (λ ns z.
          let (node, ip) = choose_node p.chmlfrp_node ns in
          bind (services.create_tunnel ch secret (tunnel_req p t node) z)
            (λ id z. (z, ok (record t { chmlfrp_tunnel_id = id; chmlfrp_node = node }, ip)))))

  -- The record at Cloudflare: of the address where there is one, or else of the domain.
  unfoldable pub at_cloudflare :
      UpstreamCredential → Payload → Tunnel × String → Z → Z × Result Tunnel
  at_cloudflare cf p (t, ip) z =
      if cf.encrypted_secret == ""
      then (z, ok t)
      else bind (unseal "cloudflare" (decrypt cf.encrypted_secret) z) (λ secret z.
        bind
          (services.create_record cf secret p.full_domain (if ip == "" then "CNAME" else "A")
            (if ip == "" then p.full_domain else ip) t.cf_proxied p.tunnel_id z)
          (λ id z. (z, ok (record t { cf_record_id = id }))))

  -- The web site at 1Panel, for HTTP and HTTPS.
  unfoldable pub at_onepanel : UpstreamCredential → Payload → Tunnel → Z → Z × Result Tunnel
  at_onepanel op p t z =
      let target = "127.0.0.1:" <> show_int t.local_port in
      let https = p.protocol == "https" in
      if (p.protocol == "http" || https) && not (op.encrypted_secret == "")
      then bind (unseal "onepanel" (decrypt op.encrypted_secret) z) (λ secret z.
        bind (services.create_website op secret p.full_domain target https z) (λ id z. (
          z,
          ok (record t {
            one_panel_website_id = id;
            one_panel_ssl_enabled = https;
            one_panel_proxy_target = target;
          }),
        )))
      else (z, ok t)

  -- The three services, in their order, up to the first error.
  unfoldable pub set_up :
      UpstreamCredential
      → UpstreamCredential
      → UpstreamCredential
      → Payload
      → Tunnel
      → Z
      → Z × Result Tunnel
  unfolding at_chmlfrp at_cloudflare at_onepanel
  set_up ch cf op p t z = bind (bind (at_chmlfrp ch p t z) (at_cloudflare cf p)) (at_onepanel op p)

  unfoldable pub sync_state : ℕ → String → Payload → Tunnel → SyncState
  sync_state now id p t = record {
    id = id;
    local_resource_type = "tunnel";
    local_resource_id = p.tunnel_id;
    external_provider = "chmlfrp";
    external_id = t.chmlfrp_tunnel_id;
    status = "synced";
    diff_json = "";
    last_checked_at = now;
    last_reconciled_at = none;
    created_at = 0;
    updated_at = 0;
  }

  announced : Job → Payload → Tunnel → Outside S Z → Z → S × Bool → Outside S Z × Result String
  announced job p t w z (s, false) = (record w { db = s; remote = z }, failed "upsert sync state")
  announced job p t w z (s, true) =
      let event =
        job_event job "tunnel.provisioned" "info" ("Tunnel " <> (t.project_name <> " ready"))
          none in
      (record { db = s; remote = z; events = event ∷ w.events }, ok (report p))

  recorded :
      ℕ → String → Job → Payload → Tunnel → Outside S Z → Z → S × Bool → Outside S Z × Result String
  unfolding announced sync_state
  recorded now id job p t w z (s, false) = (record w { db = s; remote = z }, failed "update tunnel")
  recorded now id job p t w z (s, true) =
      announced job p t w z (states.save (sync_state now id p t) s)

  -- The row is written once all is set up.
  unfoldable pub mark_healthy :
      ℕ → String → Job → Payload → Outside S Z → Z × Result Tunnel → Outside S Z × Result String
  unfolding recorded
  mark_healthy now id job p w (z, failed e) = (record w { remote = z }, failed e)
  mark_healthy now id job p w (z, ok t) =
      let healthy = record t {
        actual_state = "healthy";
        state_reason = "Provisioned by " <> job.id;
      } in
      recorded now id job p healthy w z (tunnels.save healthy w.db)

  from_row : ℕ → String → Job → Payload → Option Tunnel → Outside S Z → Outside S Z × Result String
  unfolding mark_healthy set_up find_credential_by_provider
  from_row now id job p none w = (w, failed "record not found")
  from_row now id job p (some t) w =
      let credential : String → UpstreamCredential = λ provider.
        pointed zero_credential (find_credential_by_provider credentials provider w.db) in
      mark_healthy now id job p w (
        set_up (credential "chmlfrp") (credential "cloudflare") (credential "onepanel") p t
          w.remote)

  -- `provisionTunnel`; none is a payload that is not JSON, `id` that of the state that is recorded.
  -- The finders return no nil pointer.
  unfoldable pub provision_work :
      ℕ → String → Job → Option Payload → Outside S Z → Outside S Z × Result String
  unfolding from_row find_tunnel_by_id
  provision_work now id job none w = (w, failed "payload")
  provision_work now id job (some p) w =
      if p.tunnel_id == "" || p.full_domain == "" || p.protocol == ""
      then (w, failed "invalid payload")
      else from_row now id job p (success (find_tunnel_by_id tunnels p.tunnel_id w.db)) w
