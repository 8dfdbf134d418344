-- ===== src/Worker/Nodes/Stale.antt =====
-- What the workers keep of the rows of the nodes, also where they mean to write it.
use ashan_frp.Base.{
  ℕ, String, ◌≡◌, ◌≢◌, refl, sym, ap, ◌∙◌, true, Option, none, some, List, [], ◌∷◌, Bool-cases, inl,
  inr, eq_iff, some_inj, arith,
}
use ashan_frp.Base.{◌==◌, string_eq}
use ashan_frp.Base.Text.{trim_space}
use ashan_frp.Domain.Node.{Node, ChmlFrpNode, target_ip, health_online}
use ashan_frp.Domain.Account.{AuditLog}
use ashan_frp.Repository.{Table, IsTable, or_nil}
use ashan_frp.Repository.Nodes.{find_node_by_id, update_node_speed_test}
use ashan_frp.Worker.Nodes.{
  SpeedTestResult, Lookups, refreshed, listed_node, store_node, node_ip, sync_node, sync_all,
  measured, on_node, monitor_node,
}

-- The database gives a node that is written its times.
abbrev pub stamp_node : {F : Type 0} → ℕ → ℕ → Node F → Node F
stamp_node created updated n = record n { created_at = created; updated_at = updated }

-- What no list of ChmlFrp tells of a node: whether it is preferred, its health and its measurements.
abbrev pub IsKept : {F : Type 0} → Node F → Node F → Type 0
IsKept n r =
    (r.is_preferred_node ≡ n.is_preferred_node)
    × (r.health_status ≡ n.health_status)
    × (r.status ≡ n.status)
    × (r.latency_ms ≡ n.latency_ms)
    × (r.speed_mbps ≡ n.speed_mbps)
    × (r.last_speed_tested_at ≡ n.last_speed_tested_at)

module _ {F : Type 0} {S : Type 0} (zero_speed : F) (nodes : Table S (Node F))
    (audits : Table S AuditLog) (law : IsTable nodes (λ n. n.id) stamp_node) where
  -- The row of this key is there and kept.
  abbrev pub IsRowKept : String → Node F → S → Type 0
  IsRowKept k n s = (r : Node F) × (nodes.row k s ≡ some r) × IsKept n r

  IsKept-sym : (n q r : Node F) → IsKept n q → IsKept q r → IsKept n r
  IsKept-sym n q r (a, b, c, d, e, f) (a', b', c', d', e', f') =
      (a' ∙ a, b' ∙ b, c' ∙ c, d' ∙ d, e' ∙ e, f' ∙ f)

  saved-IsKept :
      (trim : String → String) (now : ℕ) (ip : String) (raw : ChmlFrpNode) (q n : Node F) (s : S)
      (k : String)
      → nodes.row q.id s ≡ some q
      → nodes.row k s ≡ some n
      → IsRowKept k n (nodes.save (refreshed zero_speed trim now ip raw q) s).0
  unfolding refreshed
  saved-IsKept trim now ip raw q n s k at here =
      let fresh = refreshed zero_speed trim now ip raw q in
      elim (Bool-cases (nodes.save fresh s).1) [
        | inr failed ↦
            (n, law.save_failed fresh s k failed ∙ here, (refl, refl, refl, refl, refl, refl))
        | inl done ↦ elim (Bool-cases (k == q.id)) [
          | inr other ↦ (
            n,
            law.save_other fresh s k (λ e. ground (other, arith, eq_iff k q.id, e)) ∙ here,
            (refl, refl, refl, refl, refl, refl),
          )
          | inl same ↦
              let (c, u, stored) = law.save_stored fresh s done in
              let e = (eq_iff k q.id).0 same in
              let own : n ≡ q = some_inj (sym here ∙ ap (λ x. nodes.row x s) e ∙ at) in
              (
                stamp_node c u fresh,
                ap (λ x. nodes.row x (nodes.save fresh s).0) e ∙ stored,
                (
                  ap (λ x. x.is_preferred_node) (sym own),
                  ap (λ x. x.health_status) (sym own),
                  ap (λ x. x.status) (sym own),
                  ap (λ x. x.latency_ms) (sym own),
                  ap (λ x. x.speed_mbps) (sym own),
                  ap (λ x. x.last_speed_tested_at) (sym own),
                ),
              )
        ]
      ]

  store_node-IsKept :
      (trim : String → String) (now : ℕ) (ip : String) (raw : ChmlFrpNode) (o : Option (Node F))
      (n : Node F) (s : S) (k : String)
      → ((q : Node F) → o ≡ some q → nodes.row q.id s ≡ some q)
      → nodes.row k s ≡ some n
      → IsRowKept k n (store_node zero_speed nodes audits trim now ip raw o s)
  unfolding store_node
  store_node-IsKept trim now ip raw none n s k sound here = (
    n,
    law.create_kept (listed_node zero_speed trim now ip raw) n s k here,
    (refl, refl, refl, refl, refl, refl),
  )
  store_node-IsKept trim now ip raw (some q) n s k sound here =
      saved-IsKept trim now ip raw q n s k (sound q refl) here

  or_nil-pointer : (o : Option (Node F)) → (or_nil o).pointer ≡ o
  or_nil-pointer none = refl
  or_nil-pointer (some n) = refl

  sync_node-IsKept :
      (trim : String → String) (now : ℕ) (l : Lookups) (raw : ChmlFrpNode) (n : Node F) (s : S)
      (k : String)
      → nodes.row k s ≡ some n
      → IsRowKept k n (sync_node zero_speed nodes audits trim now l raw s)
  unfolding sync_node find_node_by_id
  sync_node-IsKept trim now l raw n s k here = elim (Bool-cases (trim_space raw.name == "")) [
    | inl nameless ↦ rw nameless (n, here, (refl, refl, refl, refl, refl, refl))
    | inr named ↦ rw named (
        store_node-IsKept trim now (node_ip l raw) raw
          (find_node_by_id nodes (trim_space raw.name) s).pointer n s k
          (λ q e.
            (law.first_sound (λ m. m.id == trim_space raw.name) s q (sym (or_nil-pointer _) ∙ e)).1)
          here)
  ]

  -- The loop over the nodes that ChmlFrp lists, with which a synchronisation begins, deletes no node,
  -- whatever is listed and whichever calls fail, and keeps of each whether it is preferred, its
  -- status and health, and what was measured. The selection of an emergency node that follows the
  -- loop is no part of it. The assumptions are those on the table of the nodes.
  pub sync_all-IsKept :
      (trim : String → String) (now : ℕ) (l : Lookups) (raws : List ChmlFrpNode) (n : Node F)
      (s : S) (k : String)
      → nodes.row k s ≡ some n
      → IsRowKept k n (sync_all zero_speed nodes audits trim now l raws s)
  unfolding sync_all
  sync_all-IsKept trim now l [] n s k here = (n, here, (refl, refl, refl, refl, refl, refl))
  sync_all-IsKept trim now l (raw ∷ raws) n s k here =
      let (q, at, first) = sync_node-IsKept trim now l raw n s k here in
      let (r, there, rest) =
        sync_all-IsKept trim now l raws q (sync_node zero_speed nodes audits trim now l raw s) k
          at in
      (r, there, IsKept-sym n q r first rest)

  module _ (measure : String → SpeedTestResult F) where
    -- The row of a node in use that is reached, and whose row can be saved, is online after the
    -- round, and has the latency, the speed and the time of the test from before it: the measurement
    -- that was just written is lost.
    pub monitor_node-stale :
        (now : ℕ) (id : String) (s : S) (n : Node F)
        → nodes.first (λ m. m.id == id) s ≡ some n
        → target_ip n ≢ ""
        → (measure (target_ip n)).reachable ≡ true
        → ((m : Node F) (s : S) → (nodes.save m s).1 ≡ true)
        → (r : Node F) × (nodes.row n.id (monitor_node zero_speed nodes audits measure now id s)
            ≡ some r)
          × (r.health_status ≡ health_online)
          × (r.latency_ms ≡ n.latency_ms)
          × (r.speed_mbps ≡ n.speed_mbps)
          × (r.last_speed_tested_at ≡ n.last_speed_tested_at)
    unfolding monitor_node on_node measured find_node_by_id
    monitor_node-stale now id s n found there reached saves =
        elim (Bool-cases (target_ip n == "")) [
          | inl e ↦ absurd (there ((eq_iff (target_ip n) "").0 e))
          | inr e ↦
              let res = measure (target_ip n) in
              let tested =
                (update_node_speed_test nodes now n.id n.is_preferred_node res.latency_ms
                  res.speed_mbps res.real_ip s).0 in
              let online = record n { health_status = health_online } in
              let (c, u, stored) = law.save_stored online tested (saves online tested) in
              rw found (rw (e, reached) (stamp_node c u online, stored, refl, refl, refl, refl))
        ]
