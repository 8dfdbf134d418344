-- ===== src/Http/Websites.antt =====
-- frp-backend/internal/http/handlers/website_mapping.go: the requests on website mappings.
use ashan_frp.Base.{ℕ, String, ◌<>◌, Bool, true, false, Option, none, some, List}
use ashan_frp.Base.{string_eq, if◌then◌else◌}
use ashan_frp.Domain.Website.{WebsiteMapping, WebsiteMappingInput, website_status_pending}
use ashan_frp.Domain.Job.{Job, job_status_queued}
use ashan_frp.Domain.Account.{Account, AuditLog}
use ashan_frp.Repository.{Table, Lookup}
use ashan_frp.Repository.Accounts.{find_account_by_id}
use ashan_frp.Repository.Websites.{
  WebsiteMappingFilter, find_website_mapping_by_id, list_website_mappings,
}
use ashan_frp.Http.Request.{Request, Reply, without_body, with_body, audit_entry, name_of}
use ashan_frp.Http.Response.{respond, refuse}
use ashan_frp.Http.Nodes.{or_text, or_json}

abbrev or_domains : Option (List String) → Option (List String) → Option (List String)
or_domains none old = old
or_domains (some ds) old = some ds

-- The row that `Create` builds, and the assignments of `Update`.
unfoldable pub new_website_mapping : ℕ → String → WebsiteMappingInput → WebsiteMapping
new_website_mapping now id i = record {
  id = id;
  source_kind = i.source_kind;
  node_id = i.node_id;
  tunnel_id = i.tunnel_id;
  source_external_id = i.source_external_id;
  website_alias = i.website_alias;
  primary_domain = i.primary_domain;
  domains = i.domains;
  https_enabled = i.https_enabled;
  certificate_mode = i.certificate_mode;
  ssl_certificate_ref = i.ssl_certificate_ref;
  proxy_enabled = i.proxy_enabled;
  cache_enabled = i.cache_enabled;
  proxy_target = i.proxy_target;
  http_config_json = or_json i.http_config_json "";
  conflict_strategy = i.conflict_strategy;
  status = website_status_pending;
  panel_website_id = "";
  last_synced_at = none;
  last_error_code = "";
  last_error_message = "";
  runtime_key = "";
  created_at = now;
  updated_at = now;
}

unfoldable pub patch_website_mapping : ℕ → WebsiteMappingInput → WebsiteMapping → WebsiteMapping
patch_website_mapping now i w = record w {
  source_kind = or_text i.source_kind w.source_kind;
  node_id = or_text i.node_id w.node_id;
  tunnel_id = or_text i.tunnel_id w.tunnel_id;
  source_external_id = or_text i.source_external_id w.source_external_id;
  website_alias = or_text i.website_alias w.website_alias;
  primary_domain = or_text i.primary_domain w.primary_domain;
  domains = or_domains i.domains w.domains;
  https_enabled = i.https_enabled;
  certificate_mode = or_text i.certificate_mode w.certificate_mode;
  ssl_certificate_ref = or_text i.ssl_certificate_ref w.ssl_certificate_ref;
  proxy_enabled = i.proxy_enabled;
  cache_enabled = i.cache_enabled;
  proxy_target = or_text i.proxy_target w.proxy_target;
  http_config_json = or_json i.http_config_json w.http_config_json;
  conflict_strategy = or_text i.conflict_strategy w.conflict_strategy;
  updated_at = now;
  status = website_status_pending;
}

-- The job that `Sync` queues.
unfoldable pub sync_job : String → Request → WebsiteMapping → Job
sync_job id c w = record {
  id = id;
  kind = "website_mapping.sync";
  target_type = "website_mappings";
  target_id = w.id;
  channel = "subject:website-mappings";
  status = job_status_queued;
  attempt_count = 1;
  max_attempts = 5;
  title = "Sync website mapping";
  payload_json = "{\"website_mapping_id\":\"" <> (w.id <> "\"}");
  result_json = "";
  retryable = true;
  next_retry_at = none;
  started_at = none;
  completed_at = none;
  error_message = "";
  created_by = c.account_id;
  created_at = 0;
  updated_at = 0;
}

module _ {S : Type 0} (websites : Table S WebsiteMapping) (jobs : Table S Job)
    (accounts : Table S Account) (audits : Table S AuditLog) (c : Request) where
  -- The entry has neither the request nor an outcome.
  unfoldable pub audit : String → String → S → S
  audit action resource_id s =
      let entry =
        audit_entry c (name_of (find_account_by_id accounts c.account_id s).pointer) action
          "website_mapping" resource_id in
      (audits.create (record entry { request_id = ""; trace_id = ""; outcome = "" }) s).0

  on_found : {A : Type 0} → Lookup WebsiteMapping → (WebsiteMapping → S → Reply S A) → S → Reply S A
  on_found found k s =
      if found.failed
      then without_body s (refuse 404 "NOT_FOUND")
      else elim found.pointer [ none ↦ without_body s (refuse 404 "NOT_FOUND") | some w ↦ k w s ]

  unfoldable pub on_website :
      {A : Type 0} → String → (WebsiteMapping → S → Reply S A) → S → Reply S A
  unfolding on_found find_website_mapping_by_id
  on_website id k s = on_found (find_website_mapping_by_id websites id s) k s

  listed : Option (List WebsiteMapping) → S → Reply S (List WebsiteMapping)
  listed none s = without_body s (refuse 500 "INTERNAL")
  listed (some ws) s = with_body s (respond 200) ws

  unfoldable pub list_websites : String → String → S → Reply S (List WebsiteMapping)
  unfolding listed list_website_mappings
  list_websites node_id status s =
      let f : WebsiteMappingFilter = record {
        node_id = node_id;
        status = status;
        https_enabled = none;
      } in
      listed (list_website_mappings websites f s) s

  unfoldable pub get_website : String → S → Reply S WebsiteMapping
  unfolding on_website
  get_website id s = on_website id (λ w s. with_body s (respond 200) w) s

  written : String → ℕ → WebsiteMapping → S × Bool → Reply S WebsiteMapping
  unfolding audit
  written action status w (s, false) = without_body s (refuse 500 "INTERNAL")
  written action status w (s, true) = with_body (audit action w.id s) (respond status) w

  -- `Create`; none is a body that does not bind.
  unfoldable pub create_website :
      ℕ → String → Option WebsiteMappingInput → S → Reply S WebsiteMapping
  unfolding written new_website_mapping
  create_website now id none s = without_body s (refuse 400 "INVALID_REQUEST")
  create_website now id (some i) s =
      let w = new_website_mapping now id i in
      written "website_mapping.create" 201 w (websites.create w s)

  patched : ℕ → Option WebsiteMappingInput → WebsiteMapping → S → Reply S WebsiteMapping
  unfolding written patch_website_mapping
  patched now none w s = without_body s (refuse 400 "INVALID_REQUEST")
  patched now (some i) w s =
      let w' = patch_website_mapping now i w in
      written "website_mapping.update" 200 w' (websites.save w' s)

  -- `Update`.
  unfoldable pub update_website :
      ℕ → String → Option WebsiteMappingInput → S → Reply S WebsiteMapping
  unfolding on_website patched
  update_website now id i s = on_website id (patched now i) s

  queued : Job → S × Bool → Reply S Job
  queued j (s, false) = without_body s (refuse 500 "INTERNAL")
  queued j (s, true) = with_body s (respond 202) j

  -- `Sync`, with the identifier of the job.
  unfoldable pub sync_website : String → String → S → Reply S Job
  unfolding on_website queued sync_job
  sync_website id job_id s =
      on_website id (λ w s. let j = sync_job job_id c w in queued j (jobs.create j s)) s
