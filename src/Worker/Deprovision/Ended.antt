-- ===== src/Worker/Deprovision/Ended.antt =====
-- How a deprovisioning ends.
use ashan_frp.Base.{
  String, ◌≡◌, ◌≢◌, refl, sym, ap, ◌∙◌, Bool, true, false, Option, none, some, ◌⊎◌, inl, inr,
  Bool-cases, eq_iff,
}
use ashan_frp.Base.{◌==◌, string_eq}
use ashan_frp.Base.Result.{Result, ok, failed, is_failed}
use ashan_frp.Domain.Tunnel.{Tunnel, zero_tunnel}
use ashan_frp.Domain.Job.{Job}
use ashan_frp.Domain.Credential.{UpstreamCredential}
use ashan_frp.Repository.{Table, IsTable}
use ashan_frp.Repository.Tunnels.{find_tunnel_by_id}
use ashan_frp.Repository.Credentials.{find_credential_by_provider}
use ashan_frp.Worker.Failover.Kept.{stamp_tunnel}
use ashan_frp.Worker.Deprovision.{
  Services, Outside, pointed, with_secret, remove_if, remove_all, mark_offline, stored,
  deprovision_tunnel,
}

module _ {S Z : Type 0} (tunnels : Table S Tunnel) (credentials : Table S UpstreamCredential)
    (services : Services Z) (decrypt : String → Option String) where
  -- An error before the row is marked.
  abbrev pub IsUndone : Outside S Z → Outside S Z × Result String → Type 0
  IsUndone w r = (r.0 ≡ w) × (is_failed r.1 ≡ true)

  -- The tunnel is marked offline, or an error leaves every tunnel as it was.
  abbrev pub IsEnded : String → Outside S Z → Outside S Z × Result String → Type 0
  IsEnded id w r =
      ((r.1 ≡ ok "deprovisioned")
        × ((t : Tunnel) × (tunnels.row id r.0.db ≡ some t) × (t.actual_state ≡ "offline")))
      ⊎ (is_failed r.1 ≡ true) × ((k : String) → tunnels.row k r.0.db ≡ tunnels.row k w.db)

  module _ (law : IsTable tunnels (λ t. t.id) stamp_tunnel) where
    stored-IsEnded :
        (job : Job) (t : Tunnel) (w : Outside S Z) (z : Z) (r : S × Bool)
        → tunnels.save (record t { actual_state = "offline" }) w.db ≡ r
        → IsEnded t.id w (stored tunnels credentials services decrypt job w z r)
    unfolding stored
    stored-IsEnded job t w z (s, true) e =
        let gone = record t { actual_state = "offline" } in
        let (c, u, at) = law.save_stored gone w.db (ap (λ x. x.1) e) in
        inl (refl, (stamp_tunnel c u gone, ap (λ x. tunnels.row t.id x.0) (sym e) ∙ at, refl))
    stored-IsEnded job t w z (s, false) e = inr (
      refl,
      λ k.
          ap (λ x. tunnels.row k x.0) (sym e)
          ∙ law.save_failed (record t { actual_state = "offline" }) w.db k (ap (λ x. x.1) e),
    )

    mark_offline-IsEnded :
        (job : Job) (t : Tunnel) (w : Outside S Z) (r : Z × Result Unit)
        → IsEnded t.id w (mark_offline tunnels credentials services decrypt job t w r)
    unfolding mark_offline
    mark_offline-IsEnded job t w (z, failed e) = inr (refl, λ k. refl)
    mark_offline-IsEnded job t w (z, ok done) = stored-IsEnded job t w z _ refl

    -- A deprovisioning that succeeds leaves the row of the tunnel that it found offline; one that
    -- fails, wherever it does, leaves the row of every tunnel as it was.
    pub deprovision_tunnel-IsEnded :
        (job : Job) (id : String) (w : Outside S Z)
        → IsEnded
            (pointed zero_tunnel (find_tunnel_by_id tunnels id w.db)).id
            w
            (deprovision_tunnel tunnels credentials services decrypt job (some id) w)
    unfolding deprovision_tunnel
    deprovision_tunnel-IsEnded job id w =
        mark_offline-IsEnded job (pointed zero_tunnel (find_tunnel_by_id tunnels id w.db)) w _

  remove_all-sealed :
      (ch cf op : UpstreamCredential) (t : Tunnel) (z : Z)
      → decrypt ch.encrypted_secret ≡ none
      → t.chmlfrp_tunnel_id ≢ ""
      → remove_all tunnels credentials services decrypt ch cf op t z
        ≡ (z, failed "decrypt chmlfrp credential")
  unfolding remove_all remove_if with_secret
  remove_all-sealed ch cf op t z sealed there = elim (Bool-cases (t.chmlfrp_tunnel_id == "")) [
    | inl e ↦ absurd (there ((eq_iff t.chmlfrp_tunnel_id "").0 e))
    | inr e ↦ rw (e, sealed) refl
  ]

  mark_offline-IsUndone :
      (job : Job) (t : Tunnel) (w : Outside S Z) (e : String) (r : Z × Result Unit)
      → r ≡ (w.remote, failed e)
      → IsUndone w (mark_offline tunnels credentials services decrypt job t w r)
  unfolding mark_offline
  mark_offline-IsUndone job t w e r h = rw h (refl, refl)

  -- A tunnel with a tunnel at ChmlFrp and no credential for it is never taken down: the zero
  -- credential of the finder passes for one, its empty secret cannot be decrypted, and the job fails
  -- before anything is done, also what the other services could delete.
  pub deprovision_tunnel-IsUndone :
      (job : Job) (id : String) (w : Outside S Z)
      → decrypt "" ≡ none
      → (pointed zero_tunnel (find_tunnel_by_id tunnels id w.db)).chmlfrp_tunnel_id ≢ ""
      → credentials.first (λ c. c.provider == "chmlfrp") w.db ≡ none
      → IsUndone w (deprovision_tunnel tunnels credentials services decrypt job (some id) w)
  unfolding deprovision_tunnel find_credential_by_provider
  deprovision_tunnel-IsUndone job id w sealed there missing =
      mark_offline-IsUndone job (pointed zero_tunnel (find_tunnel_by_id tunnels id w.db)) w
        "decrypt chmlfrp credential" _
        (remove_all-sealed _ _ _ (pointed zero_tunnel (find_tunnel_by_id tunnels id w.db)) w.remote
          (rw missing sealed) there)
