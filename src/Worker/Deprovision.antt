-- ===== src/Worker/Deprovision.antt =====
-- frp-backend/internal/worker/runner.go: `deprovisionTunnel`, the work of a job that takes a tunnel
-- down. The payload of the job is the identifier of the tunnel; the calls of the services are
-- parameters.
pub mod Ended
use ashan_frp.Base.{
  ℕ, String, ◌<>◌, Bool, true, false, not, Option, none, some, List, [], ◌∷◌, ◌++◌, any, map,
}
use ashan_frp.Base.{◌==◌, string_eq, if◌then◌else◌}
use ashan_frp.Base.Int.{is_positive, ℤ}
use ashan_frp.Base.Result.{Result, ok, failed}
use ashan_frp.Domain.Tunnel.{Tunnel, zero_tunnel}
use ashan_frp.Domain.Credential.{UpstreamCredential, zero_credential}
use ashan_frp.Domain.Job.{Job}
use ashan_frp.Worker.Queue.{Event, job_event}
use ashan_frp.Repository.{Table, Lookup}
use ashan_frp.Repository.Tunnels.{find_tunnel_by_id}
use ashan_frp.Repository.Credentials.{find_credential_by_provider}

-- The deletions of the three services, with the credential and its secret.
pub record Services (Z : Type 0) : Type 0 where
  pub delete_chmlfrp : UpstreamCredential → String → String → Z → Z × Result Unit
  pub delete_cloudflare : UpstreamCredential → String → String → Z → Z × Result Unit
  pub delete_onepanel : UpstreamCredential → String → ℤ → Z → Z × Result Unit

-- The database, the services and the events published so far, the newest first.
pub record Outside (S Z : Type 0) : Type 0 where
  pub db : S
  pub remote : Z
  pub events : List Event

abbrev pub and_then : {Z : Type 0} → (Z → Z × Result Unit) → Z × Result Unit → Z × Result Unit
and_then k (z, failed e) = (z, failed e)
and_then k (z, ok done) = k z

-- A pointer of a finder, which is never nil.
abbrev pub pointed : {Row : Type 0} → Row → Lookup Row → Row
pointed zero l = elim l.pointer [ none ↦ zero | some r ↦ r ]

module _ {S Z : Type 0} (tunnels : Table S Tunnel) (credentials : Table S UpstreamCredential)
    (services : Services Z) (decrypt : String → Option String) where
  with_secret : String → Option String → (String → Z → Z × Result Unit) → Z → Z × Result Unit
  with_secret service none call z = (z, failed ("decrypt " <> (service <> " credential")))
  with_secret service (some secret) call z = call secret z

  -- One deletion, where the tunnel has something to delete.
  unfoldable pub remove_if :
      Bool → String → UpstreamCredential → (String → Z → Z × Result Unit) → Z → Z × Result Unit
  unfolding with_secret
  remove_if needed service cred call z =
      if needed then with_secret service (decrypt cred.encrypted_secret) call z else (z, ok tt)

  -- The three deletions, in their order, up to the first error.
  unfoldable pub remove_all :
      UpstreamCredential → UpstreamCredential → UpstreamCredential → Tunnel → Z → Z × Result Unit
  unfolding remove_if
  remove_all ch cf op t z =
      and_then
        (λ z2.
          remove_if (is_positive t.one_panel_website_id) "onepanel" op
            (λ secret. services.delete_onepanel op secret t.one_panel_website_id) z2)
        (and_then
          (λ z1.
            remove_if (not (t.cf_record_id == "")) "cloudflare" cf
              (λ secret. services.delete_cloudflare cf secret t.cf_record_id) z1)
          (remove_if (not (t.chmlfrp_tunnel_id == "")) "chmlfrp" ch
            (λ secret. services.delete_chmlfrp ch secret t.chmlfrp_tunnel_id) z))

  stored : Job → Outside S Z → Z → S × Bool → Outside S Z × Result String
  stored job w z (s, false) = (record w { db = s; remote = z }, failed "update tunnel")
  stored job w z (s, true) =
      let event = job_event job "tunnel.deprovisioned" "info" "Tunnel deprovisioned" none in
      (record { db = s; remote = z; events = event ∷ w.events }, ok "deprovisioned")

  -- The row is marked once all is deleted.
  unfoldable pub mark_offline :
      Job → Tunnel → Outside S Z → Z × Result Unit → Outside S Z × Result String
  unfolding stored
  mark_offline job t w (z, failed e) = (record w { remote = z }, failed e)
  mark_offline job t w (z, ok done) =
      stored job w z (tunnels.save (record t { actual_state = "offline" }) w.db)

  -- `deprovisionTunnel`; none is a payload that is not JSON. The finders return no nil pointer.
  unfoldable pub deprovision_tunnel :
      Job → Option String → Outside S Z → Outside S Z × Result String
  unfolding mark_offline remove_all find_tunnel_by_id find_credential_by_provider
  deprovision_tunnel job none w = (w, failed "payload")
  deprovision_tunnel job (some id) w =
      let credential : String → UpstreamCredential = λ provider.
        pointed zero_credential (find_credential_by_provider credentials provider w.db) in
      let t = pointed zero_tunnel (find_tunnel_by_id tunnels id w.db) in
      mark_offline job t w (
        remove_all (credential "chmlfrp") (credential "cloudflare") (credential "onepanel") t
          w.remote)
