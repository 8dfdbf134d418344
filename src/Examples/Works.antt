-- ===== src/Examples/Works.antt =====
-- The works of the jobs at concrete inputs.
use ashan_frp.Base.{ℕ, suc, ◌≡◌, refl, String, true, false, Option, some, none, [], ◌∷◌}
use ashan_frp.Base.{◌==◌, string_eq}
use ashan_frp.Base.Int.{pos}
use ashan_frp.Base.Result.{ok, failed}
use ashan_frp.Domain.Tunnel.{Tunnel, zero_tunnel}
use ashan_frp.Domain.Job.{Job, job_status_queued}
use ashan_frp.Domain.Node.{Node, ChmlFrpNode}
use ashan_frp.Domain.Website.{WebsiteMapping}
use ashan_frp.Domain.Credential.{UpstreamCredential, zero_credential}
use ashan_frp.Repository.Memory.{memory_table}
use ashan_frp.Repository.Parts.{part_table}
use ashan_frp.Worker.Queue.{World, Times, begin_job, execute}
use ashan_frp.Worker.Deprovision.{Outside}
use ashan_frp.Worker.Failover.Kept.{stamp_tunnel}
use ashan_frp.Worker.Provision.{Services, Payload, provision_work}
use ashan_frp.Worker.Provision.Orphaned.{IsProvisioned, provision_work-IsProvisioned}
use ashan_frp.Worker.Nodes.Stale.{stamp_node}
use ashan_frp.Worker.Works.{Works, work_of, refresh_nodes, sync_website_mapping, db_part}
use ashan_frp.Worker.Works.Refreshed.{IsReset, refresh_nodes-IsReset}
use ashan_frp.Worker.Works.Synced.{IsSynced, execute-IsSynced, stamp_website, stamp_job}
use ashan_frp.Examples.Database.{
  Database, no_rows, tunnels, credentials, states, nodes, websites, jobs, tunnels-IsTable,
  nodes-IsTable, websites-IsTable, jobs-IsTable, states-tunnels-IsApart, jobs-websites-IsApart,
}

abbrev job : Job
job = record {
  id = "job_1";
  kind = "website_mapping.sync";
  target_type = "website_mappings";
  target_id = "web_1";
  channel = "";
  status = job_status_queued;
  attempt_count = 1;
  max_attempts = 5;
  title = "Sync website mapping";
  payload_json = "{}";
  result_json = "";
  retryable = true;
  next_retry_at = none;
  started_at = none;
  completed_at = none;
  error_message = "";
  created_by = "acc_1";
  created_at = 0;
  updated_at = 0;
}

abbrev listed : ChmlFrpNode
listed = record {
  node_token = "";
  id = 7;
  ip = "192.0.2.8";
  real_ip = "";
  name = "tokyo";
  area = "Tokyo";
  fangyu = "";
  http_port = pos 80;
  https_port = pos 443;
  node_group = "web";
  notes = "";
  port = pos 7000;
}

-- Services that count the tunnels, and a Cloudflare that refuses.
abbrev refusing : Services ℕ
refusing = record {
  get_nodes = λ cred secret n. ok (listed ∷ []);
  create_tunnel = λ cred secret req n. (suc n, ok "77");
  create_record = λ cred secret name kind content proxied tunnel_id n. (n, failed "refused");
  create_website = λ cred secret name target https n. (n, ok (pos 3));
}

abbrev blog : Tunnel
blog = record zero_tunnel { id = "tun_1"; chmlfrp_tunnel_name = "[ashan-frp]blog" }

abbrev chmlfrp : UpstreamCredential
chmlfrp = record zero_credential { id = "c1"; provider = "chmlfrp"; encrypted_secret = "sealed" }

abbrev cloudflare : UpstreamCredential
cloudflare = record zero_credential {
  id = "c2";
  provider = "cloudflare";
  encrypted_secret = "sealed";
}

abbrev outside : Outside Database ℕ
outside = record {
  db = (tunnels.save blog (credentials.save chmlfrp (credentials.save cloudflare no_rows).0).0).0;
  remote = 0;
  events = [];
}

abbrev payload : Payload
payload = record {
  tunnel_id = "tun_1";
  full_domain = "blog.example.org";
  protocol = "https";
  chmlfrp_node = "";
}

abbrev unseal : String → Option String
unseal s = some "token"

provision_work-IsProvisioned_example :
    IsProvisioned tunnels credentials states refusing unseal
      (λ p. "{}")
      job
      payload
      outside
      (provision_work tunnels credentials states refusing unseal
        (λ p. "{}")
        9
        "syn_1"
        job
        (some payload)
        outside)
provision_work-IsProvisioned_example =
    provision_work-IsProvisioned tunnels credentials states refusing unseal (λ p. "{}")
      (tunnels-IsTable stamp_tunnel (λ t. (t.created_at, t.updated_at, refl)))
      states-tunnels-IsApart 9 "syn_1" job payload outside

saves_node : (n : Node ℕ) (d : Database) → (nodes.save n d).1 ≡ true
unfolding part_table memory_table
saves_node n d = refl

refresh_nodes-IsReset_example :
    IsReset 0
      (λ cn. "{}")
      nodes
      (nodes-IsTable stamp_node (λ n. (n.created_at, n.updated_at, refl)))
      saves_node
      credentials
      unseal
      refusing.get_nodes
      outside
      (refresh_nodes 0 (λ cn. "{}") nodes credentials unseal refusing.get_nodes job outside)
refresh_nodes-IsReset_example =
    refresh_nodes-IsReset 0 (λ cn. "{}") nodes
      (nodes-IsTable stamp_node (λ n. (n.created_at, n.updated_at, refl))) saves_node credentials
      unseal refusing.get_nodes job outside

abbrev site : WebsiteMapping
site = record {
  id = "web_1";
  source_kind = "manual";
  node_id = "tokyo";
  tunnel_id = "tun_1";
  source_external_id = "";
  website_alias = "blog";
  primary_domain = "blog.example.org";
  domains = some ("blog.example.org" ∷ []);
  https_enabled = true;
  certificate_mode = "";
  ssl_certificate_ref = "";
  proxy_enabled = true;
  cache_enabled = false;
  proxy_target = "127.0.0.1:80";
  http_config_json = "";
  conflict_strategy = "";
  status = "pending";
  panel_website_id = "";
  last_synced_at = none;
  last_error_code = "";
  last_error_message = "";
  runtime_key = "";
  created_at = 1;
  updated_at = 1;
}

abbrev world : World (Outside Database ℕ)
world = record {
  db = record outside { db = (websites.save site no_rows).0 };
  events = [];
  audit_retention_days = 0;
  last_audit_cleanup = none;
}

abbrev times : Times
times = record { started = 10; done = 11; retry = 11 }

abbrev idle : Works (Outside Database ℕ)
idle = record {
  provision = λ j w. (w, ok "");
  deprovision = λ j w. (w, ok "");
  reconcile = λ j w. (w, ok "");
  refresh = λ j w. (w, ok "");
  sync_website = λ j w. (w, ok "");
}

saves_website : (m : WebsiteMapping) (d : Database) → (websites.save m d).1 ≡ true
unfolding part_table memory_table
saves_website m d = refl

saves_job : (j : Job) (d : Database) → (jobs.save j d).1 ≡ true
unfolding part_table memory_table
saves_job j d = refl

site_found :
    websites.first (λ v. v.id == "web_1") (jobs.save (begin_job 10 job) world.db.db).0 ≡ some site
unfolding part_table memory_table begin_job
site_found = refl

execute-IsSynced_example :
    IsSynced websites jobs "web_1" "job_1" site world.db
      (execute
        (part_table db_part jobs)
        (work_of (record idle { sync_website = sync_website_mapping websites 12 }))
        (λ now o. o)
        times
        job
        world).db
execute-IsSynced_example =
    execute-IsSynced websites jobs
      (websites-IsTable stamp_website (λ m. (m.created_at, m.updated_at, refl)))
      (jobs-IsTable stamp_job (λ j. (j.created_at, j.updated_at, refl))) jobs-websites-IsApart
      saves_website saves_job idle (λ now o. o) 12 times job site world refl site_found
