-- ===== src/Worker/Failover/Switched.antt =====
-- The switch to a tunnel that stands in for the first of the failover pool.
use mathlib.Core.Path.{subst}
use ashan_frp.Base.{
  ℕ, String, ◌≡◌, ◌≢◌, refl, sym, ◌∙◌, true, false, Option, some, List, [], ◌∷◌, ◌++◌, All, eq_iff,
  arith,
}
use ashan_frp.Base.{◌==◌, string_eq}
use ashan_frp.Domain.Tunnel.{Tunnel, tunnel_desired_enabled, tunnel_desired_disabled}
use ashan_frp.Domain.Account.{AuditLog}
use ashan_frp.Repository.{Table, IsTable}
use ashan_frp.Repository.Tunnels.{list_failover_tunnels}
use ashan_frp.Worker.Failover.{
  NodeInfo, is_online, probe, first_online, check_all, switch_over, check_tunnels,
  check_failover_pool,
}
use ashan_frp.Worker.Failover.Kept.{stamp_tunnel, probe-id}

ne_test : (a b : String) → a ≢ b → (a == b) ≡ false
ne_test a b h = ground (h, arith, eq_iff a b)

module _ (now : ℕ) (get_node_info : Tunnel → Option NodeInfo) where
  -- The tunnels before the first that is online.
  first_online-least :
      (down : List Tunnel) (t : Tunnel) (ts : List Tunnel)
      → All (λ u. is_online now get_node_info u ≡ false) down
      → is_online now get_node_info t ≡ true
      → first_online now get_node_info (down ++ (t ∷ ts)) ≡ some (probe now get_node_info t)
  unfolding first_online
  first_online-least [] t ts h up = rw up refl
  first_online-least (u ∷ us) t ts h up = rw h.0 (first_online-least us t ts h.1 up)

  module _ {S : Type 0} (tunnels : Table S Tunnel) (audits : Table S AuditLog)
      (law : IsTable tunnels (λ t. t.id) stamp_tunnel)
      (apart : (l : AuditLog) (s : S) (k : String)
        → tunnels.row k (audits.create l s).0 ≡ tunnels.row k s)
      (works : (t : Tunnel) (s : S) → (tunnels.save t s).1 ≡ true) where
    abbrev pub HasDesired : String → String → S → Type 0
    HasDesired id state s = (r : Tunnel) × (tunnels.row id s ≡ some r) × (r.desired_state ≡ state)

    switch_over-HasDesired :
        (p o : Tunnel) (s : S)
        → p.id ≢ o.id
        → let s' = switch_over now get_node_info tunnels audits p (some o) s in
          HasDesired o.id tunnel_desired_enabled s' × HasDesired p.id tunnel_desired_disabled s'
    unfolding switch_over
    switch_over-HasDesired p o s other =
        let disabled = record p { desired_state = tunnel_desired_disabled } in
        let enabled = record o { desired_state = tunnel_desired_enabled } in
        let s1 = (tunnels.save disabled s).0 in
        let (c, u, at) = law.save_stored enabled s1 (works enabled s1) in
        let (c', u', at') = law.save_stored disabled s (works disabled s) in
        rw (ne_test p.id o.id other) (
          (stamp_tunnel c u enabled, apart _ _ o.id ∙ at, refl),
          (
            stamp_tunnel c' u' disabled,
            apart _ _ p.id ∙ (law.save_other enabled s1 p.id other ∙ at'),
            refl,
          ),
        )

    -- Where the first tunnels of the pool are not online and a later one is, a check enables the
    -- first that is online and disables the first of the pool, in the database. The assumptions are
    -- that the worker has a token, that the database keeps what it is told, and that audit entries
    -- leave the tunnels alone.
    pub check_failover_pool-HasDesired :
        (token : String) (s : S) (p : Tunnel) (down : List Tunnel) (t : Tunnel) (ts : List Tunnel)
        → token ≢ ""
        → list_failover_tunnels tunnels s ≡ some (p ∷ (down ++ (t ∷ ts)))
        → All (λ u. is_online now get_node_info u ≡ false) (p ∷ down)
        → is_online now get_node_info t ≡ true
        → p.id ≢ t.id
        → let s' = check_failover_pool now get_node_info tunnels audits token s in
          HasDesired t.id tunnel_desired_enabled s' × HasDesired p.id tunnel_desired_disabled s'
    unfolding check_failover_pool check_tunnels
    check_failover_pool-HasDesired token s p down t ts given found h up other =
        let p' = probe now get_node_info p in
        let t' = probe now get_node_info t in
        let s1 = check_all now get_node_info tunnels audits (p ∷ (down ++ (t ∷ ts))) s in
        let s' = switch_over now get_node_info tunnels audits p' (some t') s1 in
        let ids = probe-id now get_node_info in
        let switched =
          switch_over-HasDesired p' t' s1 (λ same. other (sym (ids p) ∙ (same ∙ ids t))) in
        rw (found, ne_test token "" given, first_online-least (p ∷ down) t ts h up)
          (
            subst (λ k. HasDesired k tunnel_desired_enabled s') (ids t) switched.0,
            subst (λ k. HasDesired k tunnel_desired_disabled s') (ids p) switched.1,
          )
