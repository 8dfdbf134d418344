-- ===== src/Worker/Works.antt =====
-- frp-backend/internal/worker/runner.go: `refreshNodes` and `syncWebsiteMapping`, and the choice of
-- the work of a job by its kind.
pub mod Refreshed
pub mod Synced
use ashan_frp.Base.{
  ℕ, suc, String, ◌<>◌, Bool, true, false, Option, none, some, List, [], ◌∷◌, refl,
}
use ashan_frp.Base.{◌==◌, string_eq, if◌then◌else◌}
use ashan_frp.Base.Text.{show_nat, show_int}
use ashan_frp.Base.Result.{Result, ok, failed}
use ashan_frp.Domain.Job.{Job}
use ashan_frp.Domain.Node.{Node, zero_node, ChmlFrpNode, health_online}
use ashan_frp.Domain.Website.{WebsiteMapping, website_status_synced}
use ashan_frp.Domain.Credential.{UpstreamCredential, zero_credential}
use ashan_frp.Repository.{Table, Lookup, success}
use ashan_frp.Repository.Parts.{Part}
use ashan_frp.Repository.Credentials.{find_credential_by_provider}
use ashan_frp.Repository.Websites.{find_website_mapping_by_id}
use ashan_frp.Worker.Queue.{job_event, Outcome, result, failure}
use ashan_frp.Worker.Deprovision.{Outside}

-- The row that `refreshNodes` writes for a node that ChmlFrp lists; `metadata` is the JSON of the port
-- and the token.
unfoldable pub refreshed_node : {F : Type 0} → F → (ChmlFrpNode → String) → ChmlFrpNode → Node F
refreshed_node zero_speed metadata cn = record (zero_node zero_speed) {
  id = "node_chmlfrp_" <> show_nat cn.id;
  display_name = cn.name;
  provider = "chmlfrp";
  node_type = "frp";
  endpoint_url = cn.ip;
  region = cn.area;
  status = "online";
  health_status = health_online;
  canonical_name = cn.name;
  external_id = show_nat cn.id;
  metadata_json = metadata cn;
}

module _ {F S : Type 0} (zero_speed : F) (metadata : ChmlFrpNode → String)
    (nodes : Table S (Node F)) where
  abbrev plus : Bool → ℕ → ℕ
  plus true n = suc n
  plus false n = n

  -- The loop: the database, and how many rows could be written.
  unfoldable pub refresh_each : List ChmlFrpNode → S → S × ℕ
  unfolding refreshed_node
  refresh_each [] s = (s, 0)
  refresh_each (cn ∷ cns) s =
      let (s1, saved) = nodes.save (refreshed_node zero_speed metadata cn) s in
      let (s2, n) = refresh_each cns s1 in (s2, plus saved n)

  module _ {Z : Type 0} (credentials : Table S UpstreamCredential)
      (decrypt : String → Option String)
      (get_nodes : UpstreamCredential → String → Z → Result (List ChmlFrpNode)) where
    secret_of : UpstreamCredential → Option String
    secret_of c = if c.encrypted_secret == "" then some "" else decrypt c.encrypted_secret

    counted : Job → Outside S Z → S × ℕ → Outside S Z × Result String
    counted job w (s, n) =
        let event =
          job_event job "node.refreshed" "info"
            ("Successfully synced " <> (show_nat n <> " nodes from ChmlFrp")) none in
        (
          record w { db = s; events = event ∷ w.events },
          ok ("{\"nodes_synced\":" <> (show_nat n <> "}")),
        )

    fetched : Job → Outside S Z → Result (List ChmlFrpNode) → Outside S Z × Result String
    unfolding counted refresh_each
    fetched job w (failed e) = (w, failed ("chmlfrp get nodes: " <> e))
    fetched job w (ok cns) = counted job w (refresh_each cns w.db)

    with_secret :
        Job → UpstreamCredential → Option String → Outside S Z → Outside S Z × Result String
    unfolding fetched
    with_secret job c none w = (w, failed "decrypt chmlfrp credential")
    with_secret job c (some secret) w =
        let event = job_event job "node.syncing" "info" "Fetching nodes from ChmlFrp..." none in
        fetched job (record w { events = event ∷ w.events }) (get_nodes c secret w.remote)

    with_credential : Job → Option UpstreamCredential → Outside S Z → Outside S Z × Result String
    unfolding with_secret secret_of
    with_credential job none w = (w, failed "chmlfrp not configured")
    with_credential job (some c) w = with_secret job c (secret_of c) w

    -- `refreshNodes`.
    unfoldable pub refresh_nodes : Job → Outside S Z → Outside S Z × Result String
    unfolding with_credential find_credential_by_provider
    refresh_nodes job w =
        with_credential job (success (find_credential_by_provider credentials "chmlfrp" w.db)) w

module _ {S Z : Type 0} (websites : Table S WebsiteMapping) where
  synced : Job → WebsiteMapping → Outside S Z → S × Bool → Outside S Z × Result String
  synced job w o (s, false) = (record o { db = s }, failed "update website mapping")
  synced job w o (s, true) =
      let event = job_event job "website_mapping.synced" "info" "Website mapping synced" none in
      (
        record o { db = s; events = event ∷ o.events },
        ok ("{\"status\":\"" <> (w.status <> ("\",\"website_mapping_id\":\"" <> (w.id <> "\"}")))),
      )

  sync_found : ℕ → Job → Option WebsiteMapping → Outside S Z → Outside S Z × Result String
  unfolding synced
  sync_found now job none o = (o, failed "record not found")
  sync_found now job (some w) o =
      let marked = record w { status = website_status_synced; updated_at = now } in
      synced job marked o (websites.save marked o.db)

  -- `syncWebsiteMapping`.
  unfoldable pub sync_website_mapping : ℕ → Job → Outside S Z → Outside S Z × Result String
  unfolding sync_found find_website_mapping_by_id
  sync_website_mapping now job o =
      sync_found now job (find_website_mapping_by_id websites job.target_id o.db).pointer o

-- What `execute` does with the result of the work.
abbrev pub outcome_of : {W : Type 0} → W × Result String → W × Outcome
outcome_of (w, ok json) = (w, result json)
outcome_of (w, failed e) = (w, failure e)

-- The works of the five kinds.
pub record Works (W : Type 0) : Type 0 where
  pub provision : Job → W → W × Result String
  pub deprovision : Job → W → W × Result String
  pub reconcile : Job → W → W × Result String
  pub refresh : Job → W → W × Result String
  pub sync_website : Job → W → W × Result String

-- The switch of `execute` over the kind of the job.
unfoldable pub work_of : {W : Type 0} → Works W → Job → W → W × Outcome
work_of works job w =
    if job.kind == "provision_tunnel"
    then outcome_of (works.provision job w)
    else if job.kind == "deprovision_tunnel"
    then outcome_of (works.deprovision job w)
    else if job.kind == "reconcile"
    then outcome_of (works.reconcile job w)
    else if job.kind == "node.refresh"
    then outcome_of (works.refresh job w)
    else if job.kind == "website_mapping.sync"
    then outcome_of (works.sync_website job w)
    else (w, failure ("unknown kind: " <> job.kind))

-- The database, as the part of the world that the tables of the jobs are in.
abbrev pub db_part : {S Z : Type 0} → Part (Outside S Z) S
db_part = record { get = λ o. o.db; put = λ s o. record o { db = s }; get-put = λ s o. refl }
