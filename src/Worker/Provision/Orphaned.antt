-- ===== src/Worker/Provision/Orphaned.antt =====
-- How a provisioning ends, and what it loses.
use ashan_frp.Base.{
  ℕ, String, ◌<>◌, ◌≡◌, refl, sym, ap, ◌∙◌, Bool, true, false, ◌||◌, Option, none, some, ◌⊎◌, inl,
  inr, Bool-cases, eq_iff, ◌&&◌, not,
}
use ashan_frp.Base.{◌==◌, string_eq}
use ashan_frp.Base.Result.{Result, ok, failed}
use ashan_frp.Domain.Tunnel.{Tunnel, zero_tunnel}
use ashan_frp.Domain.Credential.{UpstreamCredential}
use ashan_frp.Domain.Job.{Job}
use ashan_frp.Domain.Website.{SyncState}
use ashan_frp.Repository.{Table, IsTable, IsApart, success-or_zero}
use ashan_frp.Repository.Tunnels.{find_tunnel_by_id}
use ashan_frp.Worker.Failover.Kept.{stamp_tunnel}
use ashan_frp.Worker.Deprovision.{Outside}
use ashan_frp.Worker.Provision.{
  Services, Payload, bind, at_chmlfrp, at_cloudflare, at_onepanel, set_up, sync_state, announced,
  recorded, mark_healthy, from_row, provision_work,
}

-- What holds of a result that is no error.
data IsOk {Z A : Type 0} (P : A → Type 0) : Z × Result A → Type 0 where
  stopped : (z : Z) (e : String) → IsOk P (z, failed e)
  done : (z : Z) (a : A) → P a → IsOk P (z, ok a)

module _ {S Z : Type 0} (tunnels : Table S Tunnel) (credentials : Table S UpstreamCredential)
    (states : Table S SyncState) (services : Services Z) (decrypt : String → Option String)
    (report : Payload → String) where
  bind-IsOk :
      {A B : Type 0} {P : B → Type 0} {k : A → Z → Z × Result B} (r : Z × Result A)
      → ((a : A) (z : Z) → IsOk P (k a z))
      → IsOk P (bind r k)
  unfolding bind
  bind-IsOk (z, failed e) h = stopped z e
  bind-IsOk (z, ok a) h = h a z

  bind-IsOk_from :
      {A B : Type 0} {Q : A → Type 0} {P : B → Type 0} {k : A → Z → Z × Result B} (r : Z × Result A)
      → IsOk Q r
      → ((a : A) (z : Z) → Q a → IsOk P (k a z))
      → IsOk P (bind r k)
  unfolding bind
  bind-IsOk_from r (stopped z e) h = stopped z e
  bind-IsOk_from r (done z a q) h = h a z q

  abbrev HasId : String → Tunnel → Type 0
  HasId id t = t.id ≡ id

  at_chmlfrp-HasId :
      (ch : UpstreamCredential) (p : Payload) (id : String) (t : Tunnel) (z : Z)
      → HasId id t
      → IsOk
          (λ x. HasId id x.0)
          (at_chmlfrp tunnels credentials states services decrypt report ch p t z)
  unfolding at_chmlfrp
  at_chmlfrp-HasId ch p id t z h = elim (Bool-cases (ch.encrypted_secret == "")) [
    | inl bare ↦ rw bare (done z (t, "") h)
    | inr full ↦
        rw full (bind-IsOk _ (λ secret z. bind-IsOk _ (λ ns z. bind-IsOk _ (λ made z. done z _ h))))
  ]

  at_cloudflare-HasId :
      (cf : UpstreamCredential) (p : Payload) (id : String) (x : Tunnel × String) (z : Z)
      → HasId id x.0
      → IsOk (HasId id) (at_cloudflare tunnels credentials states services decrypt report cf p x z)
  unfolding at_cloudflare
  at_cloudflare-HasId cf p id (t, ip) z h = elim (Bool-cases (cf.encrypted_secret == "")) [
    | inl bare ↦ rw bare (done z t h)
    | inr full ↦ rw full (bind-IsOk _ (λ secret z. bind-IsOk _ (λ record_id z. done z _ h)))
  ]

  at_onepanel-HasId :
      (op : UpstreamCredential) (p : Payload) (id : String) (t : Tunnel) (z : Z)
      → HasId id t
      → IsOk (HasId id) (at_onepanel tunnels credentials states services decrypt report op p t z)
  unfolding at_onepanel
  at_onepanel-HasId op p id t z h =
      elim (Bool-cases
        ((p.protocol == "http" || p.protocol == "https") && not (op.encrypted_secret == ""))) [
          | inl web ↦ rw web (bind-IsOk _ (λ secret z. bind-IsOk _ (λ site z. done z _ h)))
          | inr other ↦ rw other (done z t h)
        ]

  set_up-HasId :
      (ch cf op : UpstreamCredential) (p : Payload) (id : String) (t : Tunnel) (z : Z)
      → HasId id t
      → IsOk (HasId id) (set_up tunnels credentials states services decrypt report ch cf op p t z)
  unfolding set_up
  set_up-HasId ch cf op p id t z h =
      bind-IsOk_from _
        (bind-IsOk_from _ (at_chmlfrp-HasId ch p id t z h)
          (λ x z h. at_cloudflare-HasId cf p id x z h))
        (λ u z h. at_onepanel-HasId op p id u z h)

  -- The row of the tunnel is healthy, by this job.
  abbrev pub IsHealthy : String → Job → S → Type 0
  IsHealthy id job s =
      (t : Tunnel) × (tunnels.row id s ≡ some t)
      × (t.actual_state ≡ "healthy")
      × (t.state_reason ≡ "Provisioned by " <> job.id)

  -- A success leaves a tunnel healthy; an error leaves every tunnel as it was, unless it is that of
  -- the last write.
  abbrev pub IsProvisioned : Job → Payload → Outside S Z → Outside S Z × Result String → Type 0
  IsProvisioned job p w (w', ok json) = (json ≡ report p) × IsHealthy p.tunnel_id job w'.db
  IsProvisioned job p w (w', failed e) =
      ((k : String) → tunnels.row k w'.db ≡ tunnels.row k w.db)
      ⊎ (e ≡ "upsert sync state") × IsHealthy p.tunnel_id job w'.db

  module _ (law : IsTable tunnels (λ t. t.id) stamp_tunnel) (apart : IsApart states tunnels) where
    announced-IsProvisioned :
        (now : ℕ) (id : String) (job : Job) (p : Payload) (t : Tunnel) (w : Outside S Z) (z : Z)
        (s : S) (r : S × Bool)
        → IsHealthy p.tunnel_id job s
        → states.save (sync_state tunnels credentials states services decrypt report now id p t) s
          ≡ r
        → IsProvisioned job p w
            (announced tunnels credentials states services decrypt report job p t w z r)
    unfolding announced
    announced-IsProvisioned now id job p t w z s (s', false) (u, at, healthy, by) e = inr (
      refl,
      (
        u,
        ap (λ x. tunnels.row p.tunnel_id x.0) (sym e) ∙ apart.save_apart _ s p.tunnel_id ∙ at,
        healthy,
        by,
      ),
    )
    announced-IsProvisioned now id job p t w z s (s', true) (u, at, healthy, by) e = (
      refl,
      (
        u,
        ap (λ x. tunnels.row p.tunnel_id x.0) (sym e) ∙ apart.save_apart _ s p.tunnel_id ∙ at,
        healthy,
        by,
      ),
    )

    recorded-IsProvisioned :
        (now : ℕ) (id : String) (job : Job) (p : Payload) (t : Tunnel) (w : Outside S Z) (z : Z)
        (r : S × Bool)
        → HasId p.tunnel_id t
        → t.actual_state ≡ "healthy"
        → t.state_reason ≡ "Provisioned by " <> job.id
        → tunnels.save t w.db ≡ r
        → IsProvisioned job p w
            (recorded tunnels credentials states services decrypt report now id job p t w z r)
    unfolding recorded
    recorded-IsProvisioned now id job p t w z (s', false) own healthy by e =
        inl (λ k. ap (λ x. tunnels.row k x.0) (sym e) ∙ law.save_failed t w.db k (ap (λ x. x.1) e))
    recorded-IsProvisioned now id job p t w z (s', true) own healthy by e =
        let (c, u, stored) = law.save_stored t w.db (ap (λ x. x.1) e) in
        announced-IsProvisioned now id job p t w z s' _
          (
            stamp_tunnel c u t,
            ap (λ k. tunnels.row k s') (sym own) ∙ ap (λ x. tunnels.row t.id x.0) (sym e) ∙ stored,
            healthy,
            by,
          )
          refl

    mark_healthy-IsProvisioned :
        (now : ℕ) (id : String) (job : Job) (p : Payload) (w : Outside S Z) (r : Z × Result Tunnel)
        → IsOk (HasId p.tunnel_id) r
        → IsProvisioned job p w
            (mark_healthy tunnels credentials states services decrypt report now id job p w r)
    unfolding mark_healthy
    mark_healthy-IsProvisioned now id job p w r (stopped z e) = inl (λ k. refl)
    mark_healthy-IsProvisioned now id job p w r (done z t own) =
        recorded-IsProvisioned now id job p _ w z _ own refl refl refl

    from_row-IsProvisioned :
        (now : ℕ) (id : String) (job : Job) (p : Payload) (o : Option Tunnel) (w : Outside S Z)
        → ((t : Tunnel) → o ≡ some t → HasId p.tunnel_id t)
        → IsProvisioned job p w
            (from_row tunnels credentials states services decrypt report now id job p o w)
    unfolding from_row
    from_row-IsProvisioned now id job p none w own = inl (λ k. refl)
    from_row-IsProvisioned now id job p (some t) w own =
        mark_healthy-IsProvisioned now id job p w _
          (set_up-HasId _ _ _ p p.tunnel_id t w.remote (own t refl))

    -- A provisioning that succeeds leaves the tunnel healthy in the database, by its job. One that
    -- fails, wherever it does, leaves the row of every tunnel as it was, so that the identifiers of
    -- what ChmlFrp, Cloudflare and 1Panel have made until then are nowhere kept; only where the last
    -- write fails, that of the state of the synchronisation, the tunnel is healthy and the job has
    -- failed. The assumptions are those on the table of the tunnels, and that the states are a table
    -- of their own.
    pub provision_work-IsProvisioned :
        (now : ℕ) (id : String) (job : Job) (p : Payload) (w : Outside S Z)
        → IsProvisioned job p w (
            provision_work tunnels credentials states services decrypt report now id job (some p) w)
    unfolding provision_work find_tunnel_by_id
    provision_work-IsProvisioned now id job p w =
        elim (Bool-cases (p.tunnel_id == "" || p.full_domain == "" || p.protocol == "")) [
          | inl bad ↦ rw bad (inl (λ k. refl))
          | inr good ↦ rw good (
              from_row-IsProvisioned now id job p _ w (λ t e.
                (eq_iff t.id p.tunnel_id).0
                  (law.first_sound (λ u. u.id == p.tunnel_id) w.db t
                    (success-or_zero zero_tunnel t _ e)).0))
        ]
