-- ===== src/Http/Nodes/Tested.antt =====
-- What a speed test and a change of the preferred pool leave in the database.
use mathlib.Core.Path.{subst}
use ashan_frp.Base.{
  ℕ, String, ◌≡◌, refl, sym, ap, ◌∙◌, Bool, true, false, Option, none, some, ◌⊎◌, inl, inr, eq_iff,
  some_inj, arith,
}
use ashan_frp.Base.{◌==◌, string_eq}
use ashan_frp.Domain.Node.{Node, target_ip, health_online}
use ashan_frp.Domain.Account.{AuditLog}
use ashan_frp.Repository.{Table, IsTable, IsApart, or_nil}
use ashan_frp.Repository.Nodes.{find_node_by_id, update_node_speed_test, speed_tested}
use ashan_frp.Worker.Nodes.{SpeedTestResult}
use ashan_frp.Worker.Nodes.Stale.{stamp_node}
use ashan_frp.Http.Request.{Request, Reply}
use ashan_frp.Http.Nodes.{
  audit, on_found, on_node, test_node, speed_test, preferred, set_preferred_pool,
}

module _ {F : Type 0} {S : Type 0} (zero_speed : F) (nodes : Table S (Node F))
    (audits : Table S AuditLog) (measure : String → SpeedTestResult F) (c : Request)
    (law : IsTable nodes (λ n. n.id) stamp_node) (apart : IsApart audits nodes) where
  test_node-row :
      (now : ℕ) (n : Node F) (res : SpeedTestResult F) (s : S)
      → res.reachable ≡ true
      → ((m : Node F) (s : S) → (nodes.save m s).1 ≡ true)
      → (r : Node F) × (nodes.row n.id (test_node zero_speed nodes audits measure c now n res s).1
          ≡ some r)
        × (r.latency_ms ≡ res.latency_ms)
        × (r.health_status ≡ health_online)
        × (r.last_speed_tested_at ≡ n.last_speed_tested_at)
        × (r.real_ip ≡ n.real_ip)
  unfolding test_node
  test_node-row now n res s reached saves =
      let online = record n {
        latency_ms = res.latency_ms;
        speed_mbps = res.speed_mbps;
        health_status = health_online;
      } in
      let written =
        (update_node_speed_test nodes now n.id n.is_preferred_node res.latency_ms res.speed_mbps
          res.real_ip s).0 in
      let (k, u, stored) = law.save_stored online written (saves online written) in
      rw reached (stamp_node k u online, stored, refl, refl, refl, refl)

  -- The row of a node that a speed test reaches is online and has the latency that was measured, but
  -- the time of the test and the address, which were written too, are those from before the test. The
  -- assumptions are those on the table of the nodes, that its rows can be saved, and that the audit
  -- entries are a table of their own.
  pub speed_test-IsUndated :
      (now : ℕ) (id : String) (s : S) (n : Node F)
      → nodes.first (λ m. m.id == id) s ≡ some n
      → (measure (target_ip n)).reachable ≡ true
      → ((m : Node F) (s : S) → (nodes.save m s).1 ≡ true)
      → (r : Node F) × (nodes.row n.id (speed_test zero_speed nodes audits measure c now id s).db
          ≡ some r)
        × (r.latency_ms ≡ (measure (target_ip n)).latency_ms)
        × (r.health_status ≡ health_online)
        × (r.last_speed_tested_at ≡ n.last_speed_tested_at)
        × (r.real_ip ≡ n.real_ip)
  unfolding speed_test on_node on_found find_node_by_id audit
  speed_test-IsUndated now id s n found reached saves =
      let (r, stored, a, b, d, e) = test_node-row now n (measure (target_ip n)) s reached saves in
      rw found (r, apart.create_apart _ _ n.id ∙ stored, a, b, d, e)

  -- A refused request has changed no node; one that is answered has set the row of the node that it
  -- names as it was asked, and no other.
  abbrev pub IsPool : ℕ → String → Bool → S → Reply S (Node F) → Type 0
  IsPool now id asked s reply =
      ((reply.body ≡ none) × ((k : String) → nodes.row k reply.db ≡ nodes.row k s))
      ⊎ ((q : Node F) × (r : Node F) × (nodes.row id s ≡ some q)
          × (reply.body ≡ some (record q { is_preferred_node = asked }))
          × (nodes.row id reply.db ≡ some r)
          × (r.is_preferred_node ≡ asked)
          × (r.latency_ms ≡ q.latency_ms)
          × (r.health_status ≡ q.health_status)
          × (r.last_speed_tested_at ≡ some now)
          × ((k : String) (m : Node F)
              → nodes.row k reply.db ≡ some m
              → (m.id ≡ id) ⊎ (nodes.row k s ≡ some m)))

  row_case :
      (now : ℕ) (asked : Bool) (n q r : Node F)
      → q ≡ n
      → ((q.id == n.id) ≡ true)
          × ((k : ℕ) × (u : ℕ) × (r
                ≡ stamp_node k u (speed_tested now asked n.latency_ms n.speed_mbps n.real_ip q)))
        ⊎ ((q.id == n.id) ≡ false) × (r ≡ q)
      → (r.is_preferred_node ≡ asked)
        × (r.latency_ms ≡ n.latency_ms)
        × (r.health_status ≡ n.health_status)
        × (r.last_speed_tested_at ≡ some now)
  unfolding speed_tested
  row_case now asked n q r same (inl (hit, (k, u, e))) = (
    ap (λ x. x.is_preferred_node) e,
    ap (λ x. x.latency_ms) e,
    ap (λ x. x.health_status) e ∙ ap (λ x. x.health_status) same,
    ap (λ x. x.last_speed_tested_at) e,
  )
  row_case now asked n q r same (inr (miss, e)) =
      absurd (ground (miss, arith, eq_iff q.id n.id, ap (λ (x : Node F). x.id) same))

  other_case :
      (now : ℕ) (asked : Bool) (n q m : Node F) (s : S) (k : String)
      → nodes.row k s ≡ some q
      → ((q.id == n.id) ≡ true)
          × ((c : ℕ) × (u : ℕ) × (m
                ≡ stamp_node c u (speed_tested now asked n.latency_ms n.speed_mbps n.real_ip q)))
        ⊎ ((q.id == n.id) ≡ false) × (m ≡ q)
      → (m.id ≡ n.id) ⊎ (nodes.row k s ≡ some m)
  unfolding speed_tested
  other_case now asked n q m s k at (inl (hit, (c, u, e))) =
      inl (ap (λ x. x.id) e ∙ (eq_iff q.id n.id).0 hit)
  other_case now asked n q m s k at (inr (miss, e)) = inr (at ∙ ap some (sym e))

  preferred-IsPool :
      (now : ℕ) (asked : Bool) (n : Node F) (s : S) (r : S × Bool)
      → nodes.row n.id s ≡ some n
      → nodes.update
          (λ m. m.id == n.id)
          (speed_tested now asked n.latency_ms n.speed_mbps n.real_ip)
          s
        ≡ r
      → IsPool now n.id asked s
          (preferred zero_speed nodes audits measure c (record n { is_preferred_node = asked }) r)
  unfolding preferred audit speed_tested
  preferred-IsPool now asked n s (s', false) at e =
      inl
        (refl, λ k. ap (λ x. nodes.row k x.0) (sym e) ∙ law.update_failed _ _ s k (ap (λ x. x.1) e))
  preferred-IsPool now asked n s (s', true) at e =
      let write = speed_tested now asked n.latency_ms n.speed_mbps n.real_ip in
      let here : Node F → Bool = λ m. m.id == n.id in
      let (r, found) = law.update_found here write s n.id n (λ q. refl) (ap (λ x. x.1) e) at in
      let (q, before, cases) =
        law.update_stored here write s n.id r (λ q. refl) (ap (λ x. x.1) e) found in
      let (a, b, d, t) = row_case now asked n q r (some_inj (sym before ∙ at)) cases in
      inr (
        n,
        r,
        at,
        refl,
        apart.create_apart _ _ n.id ∙ ap (λ x. nodes.row n.id x.0) (sym e) ∙ found,
        a,
        b,
        d,
        t,
        λ k m there.
            let (q, before, cases) =
              law.update_stored here write s k m (λ q. refl) (ap (λ x. x.1) e)
                (ap (λ x. nodes.row k x.0) e ∙ sym (apart.create_apart _ s' k) ∙ there) in
            other_case now asked n q m s k before cases,
      )

  found-IsPool :
      (now : ℕ) (id : String) (asked : Bool) (s : S) (o : Option (Node F))
      → nodes.first (λ m. m.id == id) s ≡ o
      → IsPool now id asked s (
          on_found zero_speed nodes audits measure c
            (or_nil o)
            (λ n s.
              preferred zero_speed nodes audits measure c
                (record n { is_preferred_node = asked })
                (update_node_speed_test nodes now n.id asked n.latency_ms n.speed_mbps n.real_ip s))
            s)
  unfolding on_found update_node_speed_test
  found-IsPool now id asked s none e = inl (refl, λ k. refl)
  found-IsPool now id asked s (some n) e =
      let (hit, here) = law.first_sound (λ m. m.id == id) s n e in
      subst
        (λ i. IsPool now i asked s (
          preferred zero_speed nodes audits measure c (record n { is_preferred_node = asked })
            (update_node_speed_test nodes now n.id asked n.latency_ms n.speed_mbps n.real_ip s)))
        ((eq_iff n.id id).0 hit) (preferred-IsPool now asked n s _ here refl)

  -- A request to put a node into the preferred pool, or to take it out, either is refused and changes
  -- no node, or answers the node that it names, with the mark as it was asked, and leaves the row of
  -- that node so, with the health and latency of before; the time of its last speed test is set
  -- although none was made. Every other node stays as it was. The assumptions are those on the table
  -- of the nodes, and that the audit entries are a table of their own.
  pub set_preferred_pool-IsPool :
      (now : ℕ) (id : String) (asked : Bool) (s : S)
      → IsPool now id asked s
          (set_preferred_pool zero_speed nodes audits measure c now id (some asked) s)
  unfolding set_preferred_pool on_node find_node_by_id
  set_preferred_pool-IsPool now id asked s = found-IsPool now id asked s _ refl
