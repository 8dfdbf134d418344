-- ===== src/Http/Tunnels.antt =====
-- frp-backend/internal/http/handlers/tunnel.go: the requests on tunnels. The identifiers that
-- `NewID` draws are arguments, and the payload of a job is a function of the tunnel.
pub mod Create
pub mod Patch
pub mod Queueing
pub mod Remote
use ashan_frp.Base.{ℕ, String, ◌<>◌, Bool, true, false, Option, none, some, List, [], ◌||◌}
use ashan_frp.Base.{◌==◌, string_eq, if◌then◌else◌}
use ashan_frp.Base.Int.{ℤ, is_positive}
use ashan_frp.Base.Text.{trim_space}
use ashan_frp.Domain.Tunnel.{Tunnel, TunnelInput, zero_tunnel}
use ashan_frp.Domain.Job.{Job, job_status_queued}
use ashan_frp.Domain.Account.{Account, AuditLog}
use ashan_frp.Repository.{Table, Lookup}
use ashan_frp.Repository.Accounts.{find_account_by_id}
use ashan_frp.Repository.Tunnels.{
  find_tunnel_by_id, find_tunnel_by_domain, list_failover_tunnels, list_tunnels, TunnelFilter,
}
use ashan_frp.Http.Request.{Request, Reply, without_body, with_body, audit_entry, name_of}
use ashan_frp.Http.Response.{Response, respond, refuse}

-- The first text that is not empty.
abbrev pub or_text : String → String → String
or_text a b = if a == "" then b else a

unfoldable pub input_name : TunnelInput → String
input_name i =
    or_text
      (or_text (or_text (trim_space i.name) (trim_space i.project_name)) (trim_space i.subdomain))
      (trim_space i.dns_domain_cname)

unfoldable pub input_subdomain : TunnelInput → String
input_subdomain i = or_text (trim_space i.subdomain) (trim_space i.project_name)

unfoldable pub input_full_domain : String → TunnelInput → String
unfolding input_name input_subdomain
input_full_domain base_domain i =
    if input_subdomain i == ""
    then or_text (or_text (trim_space i.dns_domain_cname) (trim_space i.project_name))
        (input_name i)
    else input_subdomain i <> ("." <> base_domain)

unfoldable pub input_tunnel_type : TunnelInput → String
input_tunnel_type i = or_text (or_text (trim_space i.tunnel_type) (trim_space i.protocol)) "tcp"

-- The row that `Create` builds.
unfoldable pub new_tunnel : String → String → String → TunnelInput → Tunnel
unfolding input_name input_subdomain input_full_domain input_tunnel_type
new_tunnel base_domain id created_by i = record zero_tunnel {
  id = id;
  node_id = i.node_id;
  name = input_name i;
  tunnel_type = input_tunnel_type i;
  project_name = i.project_name;
  subdomain = input_subdomain i;
  full_domain = input_full_domain base_domain i;
  protocol = or_text (trim_space i.protocol) (input_tunnel_type i);
  local_ip = or_text i.local_ip "127.0.0.1";
  local_port = i.local_port;
  remote_port = i.remote_port;
  dns_domain_cname = i.dns_domain_cname;
  dns_proxied = i.dns_proxied;
  desired_state = or_text (trim_space i.desired_state) "enabled";
  chmlfrp_node = i.chmlfrp_node;
  chmlfrp_tunnel_name = "[ashan-frp]" <> input_name i;
  cf_proxied = i.cf_proxied;
  actual_state = "pending";
  state_reason = "Provisional - awaiting full provisioning";
  created_by = created_by;
}

-- The assignments of `Update`.
unfoldable pub patch_tunnel : String → TunnelInput → Tunnel → Tunnel
patch_tunnel base_domain i t = record t {
  project_name = or_text i.project_name t.project_name;
  subdomain = or_text i.subdomain t.subdomain;
  full_domain = if i.subdomain == "" then t.full_domain else i.subdomain <> ("." <> base_domain);
  dns_domain_cname = or_text i.dns_domain_cname t.dns_domain_cname;
  dns_proxied = i.dns_proxied || t.dns_proxied;
  protocol = or_text i.protocol t.protocol;
  tunnel_type = or_text t.tunnel_type i.protocol;
  local_ip = or_text i.local_ip t.local_ip;
  local_port = if is_positive i.local_port then i.local_port else t.local_port;
  remote_port = if is_positive i.remote_port then i.remote_port else t.remote_port;
  chmlfrp_node = or_text i.chmlfrp_node t.chmlfrp_node;
  cf_proxied = i.cf_proxied || t.cf_proxied;
  manual_override = true;
}

abbrev pub tunnel_job : String → String → String → ℕ → String → Request → Tunnel → Job
tunnel_job id kind title max_attempts payload c t = record {
  id = id;
  kind = kind;
  target_type = "tunnel";
  target_id = t.id;
  channel = "";
  status = job_status_queued;
  attempt_count = 1;
  max_attempts = max_attempts;
  title = title <> t.project_name;
  payload_json = payload;
  result_json = "";
  retryable = true;
  next_retry_at = none;
  started_at = none;
  completed_at = none;
  error_message = "";
  created_by = c.account_id;
  created_at = 0;
  updated_at = 0;
}

abbrev pub not_found : Response
not_found = refuse 404 "NOT_FOUND"

module _ {S : Type 0} (tunnels : Table S Tunnel) (jobs : Table S Job) (accounts : Table S Account)
    (audits : Table S AuditLog) (c : Request) where
  -- `audit`: the account's name is looked up; the error of the write is ignored.
  unfoldable pub audit : String → String → String → S → S
  audit action resource_type resource_id s =
      let name = name_of (find_account_by_id accounts c.account_id s).pointer in
      (audits.create (audit_entry c name action resource_type resource_id) s).0

  created : Tunnel → S × Bool → Reply S Tunnel
  unfolding audit
  created t (s, false) = without_body s (refuse 500 "INTERNAL")
  created t (s, true) = with_body (audit "tunnel.create" "tunnel" t.id s) (respond 201) t

  -- The end of `Create`, by the tunnel that was found.
  unfoldable pub create_unless : Option Tunnel → String → String → TunnelInput → S → Reply S Tunnel
  unfolding created new_tunnel
  create_unless (some existing) base_domain id i s = without_body s (refuse 409 "DUPLICATE_DOMAIN")
  create_unless none base_domain id i s =
      let t = new_tunnel base_domain id c.account_id i in created t (tunnels.create t s)

  -- `Create`; none is a body that does not bind.
  unfoldable pub create_tunnel : String → String → Option TunnelInput → S → Reply S Tunnel
  unfolding create_unless find_tunnel_by_domain
  create_tunnel base_domain id none s = without_body s (refuse 400 "INVALID_REQUEST")
  create_tunnel base_domain id (some i) s =
      create_unless (find_tunnel_by_domain tunnels (input_full_domain base_domain i) s).pointer
        base_domain id i s

  patched : String → Option TunnelInput → Tunnel → S → Reply S Tunnel
  unfolding audit patch_tunnel
  patched base_domain none t s = without_body s (refuse 400 "INVALID_REQUEST")
  patched base_domain (some i) t s =
      let t' = patch_tunnel base_domain i t in
      with_body (audit "tunnel.update" "tunnel" t'.id (tunnels.save t' s).0) (respond 200) t'

  -- The start of a handler, from the tunnel of the request that was looked up.
  unfoldable pub on_found : {A : Type 0} → Lookup Tunnel → (Tunnel → S → Reply S A) → S → Reply S A
  on_found found k s =
      if found.failed
      then without_body s not_found
      else elim found.pointer [ none ↦ without_body s not_found | some t ↦ k t s ]

  unfoldable pub on_tunnel : {A : Type 0} → String → (Tunnel → S → Reply S A) → S → Reply S A
  unfolding on_found
  on_tunnel id k s = on_found (find_tunnel_by_id tunnels id s) k s

  -- `Get`.
  unfoldable pub get_tunnel : String → S → Reply S Tunnel
  unfolding on_tunnel
  get_tunnel id s = on_tunnel id (λ t s. with_body s (respond 200) t) s

  -- `Update`.
  unfoldable pub update_tunnel : String → String → Option TunnelInput → S → Reply S Tunnel
  unfolding patched on_tunnel
  update_tunnel base_domain id input s = on_tunnel id (patched base_domain input) s

  -- `Delete`: the error of each write is ignored.
  unfoldable pub archive : String → String → Tunnel → S → Reply S Job
  unfolding audit
  archive job_id payload t s =
      let t' = record t { desired_state = "archived"; actual_state = "deprovisioning" } in
      let job = tunnel_job job_id "deprovision_tunnel" "Deprovision: " 3 payload c t' in
      with_body (audit "tunnel.archive" "tunnel" t'.id (jobs.create job (tunnels.save t' s).0).0)
        (respond 200) job

  unfoldable pub delete_tunnel : (Tunnel → String) → String → String → S → Reply S Job
  unfolding archive on_tunnel
  delete_tunnel payload job_id id s = on_tunnel id (λ t s. archive job_id (payload t) t s) s

  unfoldable pub provisioning : Tunnel → S × Bool → Reply S Tunnel
  provisioning t (s, false) = without_body s (refuse 500 "INTERNAL")
  provisioning t (s, true) = with_body s (respond 202) t

  unfoldable pub queued : Job → Tunnel → S × Bool → Reply S Tunnel
  unfolding provisioning
  queued job t (s, false) = without_body s (refuse 500 "INTERNAL")
  queued job t (s, true) =
      let t' = record t {
        actual_state = "provisioning";
        state_reason = "Job " <> (job.id <> " queued");
      } in
      provisioning t' (tunnels.save t' s)

  -- `Provision`.
  unfoldable pub provision_tunnel : (Tunnel → String) → String → String → S → Reply S Tunnel
  unfolding queued on_tunnel
  provision_tunnel payload job_id id s =
      on_tunnel id
        (λ t s.
          let job = tunnel_job job_id "provision_tunnel" "Provision: " 5 (payload t) c t in
          queued job t (jobs.create job s))
        s

  unfoldable pub pooled : Tunnel → S × Bool → Reply S Tunnel
  unfolding audit
  pooled t (s, false) = without_body s (refuse 500 "DB_ERROR")
  pooled t (s, true) = with_body (audit "tunnel.set_failover_pool" "tunnel" t.id s) (respond 200) t

  -- `SetFailoverPool`, with `UpdateFailoverPriority`; none is a body that does not bind.
  unfoldable pub set_failover_pool : ℕ → String → Option (Bool × ℤ) → S → Reply S Tunnel
  unfolding pooled on_tunnel
  set_failover_pool now id none s = without_body s (refuse 400 "INVALID_REQUEST")
  set_failover_pool now id (some (is_pool, priority)) s =
      on_tunnel id
        (λ t s.
          pooled (record t { is_failover_pool = is_pool; failover_priority = priority })
            (tunnels.update (λ u. u.id == id)
              (λ u. record u {
                is_failover_pool = is_pool;
                failover_priority = priority;
                updated_at = now;
              })
              s))
        s

  -- `List` ignores the error of the query.
  unfoldable pub list_all_tunnels : TunnelFilter → S → Reply S (List Tunnel)
  unfolding list_tunnels
  list_all_tunnels f s = elim (list_tunnels tunnels f s) [
    | none ↦ with_body s (respond 200) []
    | some ts ↦ with_body s (respond 200) ts
  ]

  -- `ListFailoverPool`.
  unfoldable pub list_failover_pool : S → Reply S (List Tunnel)
  unfolding list_failover_tunnels
  list_failover_pool s = elim (list_failover_tunnels tunnels s) [
    | none ↦ without_body s (refuse 500 "DB_ERROR")
    | some ts ↦ with_body s (respond 200) ts
  ]
