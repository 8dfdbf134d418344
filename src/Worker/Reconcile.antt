-- ===== src/Worker/Reconcile.antt =====
-- frp-backend/internal/worker/runner.go: `reconcile`, which reports what the services hold and no
-- tunnel of the database accounts for. What the services list is a parameter.
pub mod Reported
use ashan_frp.Base.{
  ℕ, leb, String, ◌<>◌, Bool, true, false, not, ◌&&◌, Option, none, some, List, [], ◌∷◌, ◌++◌,
  select, map, length,
}
use ashan_frp.Base.{◌==◌, string_eq, if◌then◌else◌}
use ashan_frp.Base.Result.{Result, ok, failed}
use ashan_frp.Base.Text.{bytes, take_bytes}
use ashan_frp.Domain.Tunnel.{Tunnel}
use ashan_frp.Domain.Job.{Job}
use ashan_frp.Domain.Credential.{UpstreamCredential}
use ashan_frp.Repository.{Table, Lookup}
use ashan_frp.Repository.Tunnels.{TunnelFilter, list_tunnels}
use ashan_frp.Repository.Credentials.{find_credential_by_provider}
use ashan_frp.Chmlfrp.{RemoteTunnel}
use ashan_frp.Cloudflare.Client.{DnsRecord}
use ashan_frp.Worker.Queue.{Event, job_event}

pub data Diff : Type 0 where
  orphaned_chmlfrp : String → String → Diff
  orphaned_cf : String → String → Diff

-- The result of the job: the tunnels that were checked, and what was found.
pub record Report : Type 0 where
  pub tunnels_checked : ℕ
  pub items : List Diff

-- A tunnel of the list has this name, or this domain, which is not empty.
unfoldable pub has_name : String → List Tunnel → Bool
has_name name [] = false
has_name name (t ∷ ts) =
    let rest = has_name name ts in
    if not (t.chmlfrp_tunnel_name == "") && t.chmlfrp_tunnel_name == name then true else rest

unfoldable pub has_domain : String → List Tunnel → Bool
has_domain name [] = false
has_domain name (t ∷ ts) =
    let rest = has_domain name ts in
    if not (t.full_domain == "") && t.full_domain == name then true else rest

-- `len(rt.Name) >= 10 && rt.Name[:10] == "[ashan-frp]" && !ln[rt.Name]`.
unfoldable pub is_orphan : List Tunnel → RemoteTunnel → Bool
unfolding has_name
is_orphan ts r =
    leb 10 (bytes r.name) && take_bytes 10 r.name == "[ashan-frp]" && not (has_name r.name ts)

-- The two loops.
unfoldable pub chmlfrp_diffs : List Tunnel → List RemoteTunnel → List Diff
unfolding is_orphan
chmlfrp_diffs ts [] = []
chmlfrp_diffs ts (r ∷ rs) =
    let rest = chmlfrp_diffs ts rs in
    if is_orphan ts r then orphaned_chmlfrp r.name r.id ∷ rest else rest

unfoldable pub cloudflare_diffs : List Tunnel → List DnsRecord → List Diff
unfolding has_domain
cloudflare_diffs ts [] = []
cloudflare_diffs ts (r ∷ rs) =
    let rest = cloudflare_diffs ts rs in
    if has_domain r.name ts then rest else orphaned_cf r.name r.id ∷ rest

abbrev pub all_tunnels : TunnelFilter
all_tunnels = record { status = ""; protocol = ""; chmlfrp_node = "" }

-- The list, [] on an error.
abbrev pub or_empty : Option (List Tunnel) → List Tunnel
or_empty none = []
or_empty (some ts) = ts

module _ {S : Type 0} (tunnels : Table S Tunnel) (credentials : Table S UpstreamCredential)
    (decrypt : String → Option String)
    (get_tunnels : UpstreamCredential → String → Result (List RemoteTunnel))
    (find_records_by_tag : UpstreamCredential → String → Result (List DnsRecord)) where
  asked_with :
      {A : Type 0}
      → String
      → (UpstreamCredential → String → Result (List A))
      → UpstreamCredential
      → Option String
      → Result (List A)
  asked_with service call cred none = failed ("decrypt credential of " <> service)
  asked_with service call cred (some secret) = call cred secret

  -- One service, by the pointer to its credential: nothing without one or without a secret, an error
  -- where the secret cannot be decrypted.
  unfoldable pub asked_service :
      {A : Type 0}
      → String
      → (UpstreamCredential → String → Result (List A))
      → Option UpstreamCredential
      → Result (List A)
  unfolding asked_with
  asked_service service call none = ok []
  asked_service service call (some cred) =
      if cred.encrypted_secret == ""
      then ok []
      else asked_with service call cred (decrypt cred.encrypted_secret)

  unfoldable pub reported :
      List Tunnel → Result (List RemoteTunnel) → Result (List DnsRecord) → Result Report
  unfolding chmlfrp_diffs cloudflare_diffs
  reported ts (failed e) records = failed e
  reported ts (ok rs) (failed e) = failed e
  reported ts (ok rs) (ok ds) = ok (record {
    tunnels_checked = length ts;
    items = chmlfrp_diffs ts rs ++ cloudflare_diffs ts ds;
  })

  announce : Job → Result Report → List Event → List Event × Result Report
  announce job (failed e) events = (events, failed e)
  announce job (ok r) events =
      (job_event job "sync.reconciled" "info" "Reconciliation completed" none ∷ events, ok r)

  -- `reconcile`, which ignores the errors of the database, with the events published so far.
  unfoldable pub reconcile : Job → S → List Event → List Event × Result Report
  unfolding asked_service reported announce list_tunnels find_credential_by_provider
  reconcile job s events =
      announce job
        (reported (or_empty (list_tunnels tunnels all_tunnels s))
          (asked_service "chmlfrp" get_tunnels
            (find_credential_by_provider credentials "chmlfrp" s).pointer)
          (asked_service "cloudflare" find_records_by_tag
            (find_credential_by_provider credentials "cloudflare" s).pointer))
        events
