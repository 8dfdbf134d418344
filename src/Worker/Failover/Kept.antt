-- ===== src/Worker/Failover/Kept.antt =====
-- What a check of the failover pool leaves as it was.
use ashan_frp.Base.{
  ℕ, String, ◌≡◌, refl, sym, ap, ◌∙◌, Bool, true, false, Option, none, some, List, [], ◌∷◌, All,
  some_inj, eq_iff, arith,
}
use ashan_frp.Base.{◌⊎◌, eq_refl, All-map, ◌==◌, string_eq, if◌then◌else◌, Bool-cases, inl, inr}
use ashan_frp.Domain.Tunnel.{Tunnel}
use ashan_frp.Domain.Account.{AuditLog}
use ashan_frp.Repository.{Table, IsTable}
use ashan_frp.Repository.Tunnels.{list_failover_tunnels}
use ashan_frp.Worker.Failover.{
  NodeInfo, online_ip, is_online, probe, checked, first_online, check_all, switch_over,
  check_tunnels, check_failover_pool,
}

-- The database sets the two times of a row that it writes.
abbrev pub stamp_tunnel : ℕ → ℕ → Tunnel → Tunnel
stamp_tunnel created updated t = record t { created_at = created; updated_at = updated }

module _ (now : ℕ) (get_node_info : Tunnel → Option NodeInfo) where
  checked-kept :
      (t : Tunnel) (ip : Option String)
      → ((checked now t ip).id ≡ t.id) × ((checked now t ip).desired_state ≡ t.desired_state)
  unfolding checked
  checked-kept t none = (refl, refl)
  checked-kept t (some ip) = (refl, refl)

  pub probe-id : (t : Tunnel) → (probe now get_node_info t).id ≡ t.id
  unfolding probe
  probe-id t = elim (Bool-cases (t.chmlfrp_node == "")) [
    | inl e ↦ rw e refl
    | inr e ↦ rw e (checked-kept t (online_ip (get_node_info t))).0
  ]

  probe-desired_state : (t : Tunnel) → (probe now get_node_info t).desired_state ≡ t.desired_state
  unfolding probe
  probe-desired_state t = elim (Bool-cases (t.chmlfrp_node == "")) [
    | inl e ↦ rw e refl
    | inr e ↦ rw e (checked-kept t (online_ip (get_node_info t))).1
  ]

  module _ {S : Type 0} (tunnels : Table S Tunnel) (audits : Table S AuditLog)
      (law : IsTable tunnels (λ t. t.id) stamp_tunnel) where
    -- Every row was there before, with the same desired state.
    abbrev IsKept : S → S → Type 0
    IsKept s0 s =
        (k : String) (r : Tunnel)
        → tunnels.row k s ≡ some r
        → (r0 : Tunnel) × (tunnels.row k s0 ≡ some r0) × (r.desired_state ≡ r0.desired_state)

    save_stored-IsKept :
        (s0 s : S) (t : Tunnel)
        → tunnels.row t.id s0 ≡ some t
        → IsKept s0 s
        → (tunnels.save (probe now get_node_info t) s).1 ≡ true
        → IsKept s0 (tunnels.save (probe now get_node_info t) s).0
    save_stored-IsKept s0 s t here kept stored k r e =
        let p = probe now get_node_info t in
        elim (Bool-cases (k == p.id)) [
          | inr other ↦
              kept k r (
                sym (law.save_other p s k (λ same. ground (same, arith, other, eq_iff k p.id))) ∙ e)
          | inl same ↦
              let key = (eq_iff k p.id).0 same in
              let (c, u, at) = law.save_stored p s stored in
              let is_r =
                some_inj (sym at ∙ ap (λ x. tunnels.row x (tunnels.save p s).0) (sym key) ∙ e) in
              (
                t,
                ap (λ x. tunnels.row x s0) (key ∙ probe-id t) ∙ here,
                ap (λ x. x.desired_state) (sym is_r) ∙ probe-desired_state t,
              )
        ]

    save-IsKept :
        (s0 s : S) (t : Tunnel)
        → tunnels.row t.id s0 ≡ some t
        → IsKept s0 s
        → IsKept s0 (tunnels.save (probe now get_node_info t) s).0
    save-IsKept s0 s t here kept =
        let p = probe now get_node_info t in
        elim (Bool-cases (tunnels.save p s).1) [
          | inl stored ↦ save_stored-IsKept s0 s t here kept stored
          | inr failed ↦ λ k r e. kept k r (sym (law.save_failed p s k failed) ∙ e)
        ]

    if-IsKept :
        (b : Bool) (s0 s s' : S) → IsKept s0 s → IsKept s0 s' → IsKept s0 (if b then s else s')
    if-IsKept true s0 s s' h h' = h
    if-IsKept false s0 s s' h h' = h'

    check_all-IsKept :
        (ts : List Tunnel) (s0 s : S)
        → All (λ t. tunnels.row t.id s0 ≡ some t) ts
        → IsKept s0 s
        → IsKept s0 (check_all now get_node_info tunnels audits ts s)
    unfolding check_all
    check_all-IsKept [] s0 s here kept = kept
    check_all-IsKept (t ∷ ts) s0 s here kept =
        check_all-IsKept ts s0 _ here.1
          (if-IsKept (t.chmlfrp_node == "") s0 s _ kept (save-IsKept s0 s t here.0 kept))

    -- The first tunnel of the pool is online, or none is.
    abbrev pub HasNoSwitch : List Tunnel → Type 0
    HasNoSwitch [] = Unit
    HasNoSwitch (t ∷ ts) =
        (is_online now get_node_info t ≡ true) ⊎ (first_online now get_node_info (t ∷ ts) ≡ none)

    switch_over-none :
        (t : Tunnel) (ts : List Tunnel) (s : S)
        → HasNoSwitch (t ∷ ts)
        → switch_over now get_node_info tunnels audits
            (probe now get_node_info t)
            (first_online now get_node_info (t ∷ ts))
            s
          ≡ s
    unfolding switch_over first_online
    switch_over-none t ts s (inl up) = rw up (rw (eq_refl (probe now get_node_info t).id) refl)
    switch_over-none t ts s (inr none_up) = rw none_up refl

    check_tunnels-IsKept :
        (found : Option (List Tunnel)) (token : String) (s : S)
        → ((ts : List Tunnel) → found ≡ some ts → All (λ t. tunnels.row t.id s ≡ some t) ts)
        → ((ts : List Tunnel) → found ≡ some ts → HasNoSwitch ts)
        → IsKept s (check_tunnels now get_node_info tunnels audits found token s)
    unfolding check_tunnels
    check_tunnels-IsKept none token s here quiet = λ k r e. (r, e, refl)
    check_tunnels-IsKept (some []) token s here quiet = λ k r e. (r, e, refl)
    check_tunnels-IsKept (some (t ∷ ts)) token s here quiet = elim (Bool-cases (token == "")) [
      | inl e ↦ rw e (λ k r e. (r, e, refl))
      | inr e ↦
          rw (e, switch_over-none t ts _ (quiet (t ∷ ts) refl))
            (check_all-IsKept (t ∷ ts) s s (here (t ∷ ts) refl) (λ k r e. (r, e, refl)))
    ]

    -- While the first tunnel of the pool is online, and also while none is, a check changes the
    -- desired state of no tunnel: it neither enables the first again after an outage, nor disables
    -- the one that has stood in for it.
    pub check_failover_pool-desired_state :
        (token : String) (s : S)
        → ((ts : List Tunnel) → list_failover_tunnels tunnels s ≡ some ts → HasNoSwitch ts)
        → (k : String) (r : Tunnel)
        → tunnels.row k (check_failover_pool now get_node_info tunnels audits token s) ≡ some r
        → (r0 : Tunnel) × (tunnels.row k s ≡ some r0) × (r.desired_state ≡ r0.desired_state)
    unfolding check_failover_pool list_failover_tunnels
    check_failover_pool-desired_state token s quiet k r e =
        check_tunnels-IsKept _ token s
          (λ ts found. All-map (λ t h. h.1) ts (law.find_sound _ _ _ s ts found)) quiet k r e
