-- ===== src/Http/Tunnels/Queueing.antt =====
-- What the requests to delete and to provision a tunnel leave behind.
use ashan_frp.Base.{
  ℕ, String, ◌≡◌, refl, Bool, true, false, Option, none, some, eq_iff, ◌⊎◌, inl, inr,
}
use ashan_frp.Base.{◌==◌, string_eq}
use ashan_frp.Domain.Tunnel.{Tunnel, zero_tunnel}
use ashan_frp.Domain.Job.{Job}
use ashan_frp.Domain.Account.{Account, AuditLog}
use ashan_frp.Repository.{Table, IsTable, or_zero}
use ashan_frp.Repository.Tunnels.{find_tunnel_by_id}
use ashan_frp.Http.Request.{Request, Reply, without_body}
use ashan_frp.Http.Response.{respond, refuse}
use ashan_frp.Http.Tunnels.{
  delete_tunnel, provision_tunnel, on_tunnel, on_found, archive, tunnel_job, queued, provisioning,
  not_found,
}

-- A job that waits for the worker, on one tunnel.
abbrev pub IsQueuedFor : String → String → Job → Type 0
IsQueuedFor kind id j =
    (j.kind ≡ kind) × (j.target_id ≡ id) × (j.status ≡ "queued") × (j.retryable ≡ true)

module _ {S : Type 0} (tunnels : Table S Tunnel) (jobs : Table S Job) (accounts : Table S Account)
    (audits : Table S AuditLog) (stamp : ℕ → ℕ → Tunnel → Tunnel)
    (law : IsTable tunnels (λ t. t.id) stamp) (c : Request) where
  on_found-elim :
      {A : Type 0} (P : Reply S A → Type 0) (found : Option Tunnel) (k : Tunnel → S → Reply S A)
      (s : S)
      → P (without_body s not_found)
      → ((t : Tunnel) → found ≡ some t → P (k t s))
      → P (on_found tunnels jobs accounts audits c (or_zero zero_tunnel found) k s)
  unfolding on_found
  on_found-elim P none k s missing here = missing
  on_found-elim P (some t) k s missing here = here t refl

  -- What a handler of the tunnel `id` ends with: what it does to the row with that identifier.
  on_tunnel-elim :
      {A : Type 0} (P : Reply S A → Type 0) (id : String) (k : Tunnel → S → Reply S A) (s : S)
      → P (without_body s not_found)
      → ((t : Tunnel) → t.id ≡ id → P (k t s))
      → P (on_tunnel tunnels jobs accounts audits c id k s)
  unfolding on_tunnel find_tunnel_by_id
  on_tunnel-elim P id k s missing here =
      on_found-elim P (tunnels.first (λ t. t.id == id) s) k s missing
        (λ t e. here t ((eq_iff t.id id).0 (law.first_sound _ s t e).0))

  -- The answers to a request to delete the tunnel `id`.
  abbrev pub DeleteReply : String → S → Reply S Job → Type 0
  DeleteReply id s r =
      (r ≡ without_body s not_found)
      ⊎ ((r.response ≡ respond 200)
          × ((j : Job) × (r.body ≡ some j) × IsQueuedFor "deprovision_tunnel" id j))

  archive-DeleteReply :
      (payload : Tunnel → String) (job_id id : String) (s : S) (t : Tunnel)
      → t.id ≡ id
      → DeleteReply id s (archive tunnels jobs accounts audits c job_id (payload t) t s)
  unfolding archive
  archive-DeleteReply payload job_id id s t e = inr (refl, (_, refl, (refl, e, refl, refl)))

  -- A request to delete a tunnel is answered by 404, with the database as it was, or by 200 with a
  -- queued job to deprovision that tunnel.
  pub delete_tunnel-DeleteReply :
      (payload : Tunnel → String) (job_id id : String) (s : S)
      → DeleteReply id s (delete_tunnel tunnels jobs accounts audits c payload job_id id s)
  unfolding delete_tunnel
  delete_tunnel-DeleteReply payload job_id id s =
      on_tunnel-elim (DeleteReply id s) id
        (λ t s'. archive tunnels jobs accounts audits c job_id (payload t) t s') s (inl refl)
        (archive-DeleteReply payload job_id id s)

  -- The answers to a request to provision the tunnel `id`.
  abbrev pub ProvisionReply : String → S → Reply S Tunnel → Type 0
  ProvisionReply id s r =
      (r ≡ without_body s not_found)
      ⊎ ((r.response ≡ refuse 500 "INTERNAL") × (r.body ≡ none))
      ⊎ ((r.response ≡ respond 202)
          × ((t : Tunnel) × (r.body ≡ some t)
              × (t.id ≡ id)
              × (t.actual_state ≡ "provisioning")
              × ((saved : S) × ((tunnels.save t saved ≡ (r.db, true))))))

  provisioning-ProvisionReply :
      (id : String) (s : S) (t : Tunnel) (saved : S) (end : S × Bool)
      → tunnels.save t saved ≡ end
      → t.id ≡ id
      → t.actual_state ≡ "provisioning"
      → ProvisionReply id s (provisioning tunnels jobs accounts audits c t end)
  unfolding provisioning
  provisioning-ProvisionReply id s t saved (s', false) e i p = inr (inl (refl, refl))
  provisioning-ProvisionReply id s t saved (s', true) e i p =
      inr (inr (refl, (t, refl, i, p, (saved, e))))

  queued-ProvisionReply :
      (id : String) (s : S) (t : Tunnel) (j : Job) (end : S × Bool)
      → t.id ≡ id
      → ProvisionReply id s (queued tunnels jobs accounts audits c j t end)
  unfolding queued
  queued-ProvisionReply id s t j (s', false) i = inr (inl (refl, refl))
  queued-ProvisionReply id s t j (s', true) i =
      provisioning-ProvisionReply id s _ s' (tunnels.save _ s') refl i refl

  -- A request to provision a tunnel is answered by 404, with the database as it was, by 500 with no
  -- tunnel, or by 202 with that tunnel in the state "provisioning", as the last call has saved it.
  pub provision_tunnel-ProvisionReply :
      (payload : Tunnel → String) (job_id id : String) (s : S)
      → ProvisionReply id s (provision_tunnel tunnels jobs accounts audits c payload job_id id s)
  unfolding provision_tunnel
  provision_tunnel-ProvisionReply payload job_id id s =
      on_tunnel-elim (ProvisionReply id s) id
        (λ t s'.
          let job = tunnel_job job_id "provision_tunnel" "Provision: " 5 (payload t) c t in
          queued tunnels jobs accounts audits c job t (jobs.create job s'))
        s (inl refl)
        (λ t e.
          let job = tunnel_job job_id "provision_tunnel" "Provision: " 5 (payload t) c t in
          queued-ProvisionReply id s t job (jobs.create job s) e)
