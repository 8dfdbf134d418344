-- ===== src/Worker/Nodes/Chosen.antt =====
-- Which node the emergency selection takes, and how its row ends.
use ashan_frp.Base.{
  ℕ, ltb, ◌≤◌, ◌<◌, String, ◌≡◌, refl, sym, ◌∙◌, true, false, not, ◌&&◌, Option, none, some, List,
  [], ◌∷◌, All, Bool-cases, ltb→lt, inl, inr, some_inj, arith, ◌⊎◌,
}
use ashan_frp.Base.{◌==◌, string_eq}
use ashan_frp.Domain.Node.{Node, node_status_archived}
use ashan_frp.Domain.Account.{AuditLog}
use ashan_frp.Repository.{Table, IsTable, IsApart}
use ashan_frp.Repository.Nodes.{list_preferred_nodes, list_candidate_nodes}
use ashan_frp.Worker.Nodes.{
  SpeedTestResult, candidate_latency, improve, best_node, test_candidates, prefer, scan, has_online,
  ensure_emergency_best_node_selection,
}
use ashan_frp.Worker.Nodes.Stale.{stamp_node}

module _ {F : Type 0} {S : Type 0} (zero_speed : F) (nodes : Table S (Node F))
    (audits : Table S AuditLog) (measure : String → SpeedTestResult F) where
  abbrev pub latency_of : Node F → Option ℕ
  latency_of n = candidate_latency zero_speed nodes audits measure n

  -- Every candidate that is reached has at least this latency.
  abbrev pub AreAtLeast : ℕ → List (Node F) → Type 0
  AreAtLeast l ns = All (λ n. (k : ℕ) → latency_of n ≡ some k → l ≤ k) ns

  -- The best is this one, of the candidates, and below a bound.
  abbrev pub IsBest : (Node F → Type 0) → ℕ → List (Node F) → Option (Node F) → Type 0
  IsBest Q bound ns o =
      (n : Node F) × (l : ℕ) × (o ≡ some n)
      × Q n
      × (latency_of n ≡ some l)
      × (l < bound)
      × AreAtLeast l ns

  best : Option (Node F) × ℕ → List (Node F) → Option (Node F)
  best b ns = best_node zero_speed nodes audits measure b ns

  -- The loop keeps the best so far, whose latency bounds what is left, or finds a better one.
  abbrev IsLoop : (Node F → Type 0) → Option (Node F) × ℕ → List (Node F) → Type 0
  IsLoop Q b ns = (best b ns ≡ b.0) × AreAtLeast b.1 ns ⊎ IsBest Q b.1 ns (best b ns)

  at_least :
      (n : Node F) (l m : ℕ)
      → latency_of n ≡ some l
      → m ≤ l
      → (k : ℕ) → latency_of n ≡ some k
      → m ≤ k
  at_least n l m e h k f = let same = some_inj (sym e ∙ f) in omega (arith, same, h)

  replaced :
      (Q : Node F → Type 0) (so_far : Option (Node F)) (bound : ℕ) (n : Node F) (ns : List (Node F))
      (l : ℕ)
      → Q n
      → latency_of n ≡ some l
      → ltb l bound ≡ true
      → IsLoop Q (some n, l) ns
      → best (so_far, bound) (n ∷ ns) ≡ best (some n, l) ns
      → IsLoop Q (so_far, bound) (n ∷ ns)
  replaced Q so_far bound n ns l q e better (inl (same, all)) step =
      inr (n, l, step ∙ same, q, e, ltb→lt l bound better, (at_least n l l e (omega arith), all))
  replaced Q so_far bound n ns l q e better (inr (m, k, found, qm, lat, below, all)) step =
      let under = ltb→lt l bound better in
      inr (
        m,
        k,
        step ∙ found,
        qm,
        lat,
        omega (arith, below, under),
        (at_least n l k e (omega (arith, below)), all),
      )

  kept :
      (Q : Node F → Type 0) (so_far : Option (Node F)) (bound : ℕ) (n : Node F) (ns : List (Node F))
      (l : ℕ)
      → Q n
      → latency_of n ≡ some l
      → ltb l bound ≡ false
      → IsLoop Q (so_far, bound) ns
      → best (so_far, bound) (n ∷ ns) ≡ best (so_far, bound) ns
      → IsLoop Q (so_far, bound) (n ∷ ns)
  kept Q so_far bound n ns l q e worse (inl (same, all)) step =
      inl (step ∙ same, (at_least n l bound e (ground (arith, worse)), all))
  kept Q so_far bound n ns l q e worse (inr (m, k, found, qm, lat, below, all)) step =
      inr
        (m, k, step ∙ found, qm, lat, below, (at_least n l k e (ground (arith, worse, below)), all))

  step-IsLoop :
      (Q : Node F → Type 0) (b : Option (Node F) × ℕ) (n : Node F) (ns : List (Node F))
      (o : Option ℕ)
      → Q n
      → latency_of n ≡ o
      → IsLoop Q (improve zero_speed nodes audits measure b n o) ns
      → best b (n ∷ ns) ≡ best (improve zero_speed nodes audits measure b n o) ns
      → IsLoop Q b (n ∷ ns)
  unfolding improve
  step-IsLoop Q b n ns none q e (inl (same, all)) step = inl (step ∙ same, ((λ k f. cc), all))
  step-IsLoop Q b n ns none q e (inr (m, l, found, qm, lat, below, all)) step =
      inr (m, l, step ∙ found, qm, lat, below, ((λ k f. cc), all))
  step-IsLoop Q (so_far, bound) n ns (some l) q e rest step = elim (Bool-cases (ltb l bound)) [
    | inl better ↦ replaced Q so_far bound n ns l q e better (rw better at rest) (rw better at step)
    | inr worse ↦ kept Q so_far bound n ns l q e worse (rw worse at rest) (rw worse at step)
  ]

  best-IsLoop :
      (Q : Node F → Type 0) (b : Option (Node F) × ℕ) (ns : List (Node F))
      → All Q ns
      → IsLoop Q b ns
  unfolding best best_node
  best-IsLoop Q b [] h = inl (refl, tt)
  best-IsLoop Q b (n ∷ ns) (q, h) =
      step-IsLoop Q b n ns (latency_of n) q refl
        (best-IsLoop Q (improve zero_speed nodes audits measure b n (latency_of n)) ns h) refl

  -- A candidate, as the database tells it.
  abbrev pub IsCandidate : S → Node F → Type 0
  IsCandidate s n =
      ((not n.is_preferred_node && not (n.status == node_status_archived)) ≡ true)
      × (nodes.row n.id s ≡ some n)

  -- Its row is preferred, with the health and the latency of before.
  abbrev pub IsPreferred : Node F → S → Type 0
  IsPreferred n s' =
      (r : Node F) × (nodes.row n.id s' ≡ some r)
      × (r.is_preferred_node ≡ true)
      × (r.health_status ≡ n.health_status)
      × (r.latency_ms ≡ n.latency_ms)

  -- One of the candidates was the fastest, and is preferred.
  abbrev pub IsSelected : S → List (Node F) → S → Type 0
  IsSelected s ns s' =
      (n : Node F) × (l : ℕ) × IsCandidate s n
      × (latency_of n ≡ some l)
      × (l < 99999)
      × AreAtLeast l ns
      × IsPreferred n s'

  module _ (law : IsTable nodes (λ n. n.id) stamp_node) (apart : IsApart audits nodes)
      (saves : (n : Node F) (s : S) → (nodes.save n s).1 ≡ true) where
    prefer-IsPreferred :
        (n : Node F) (s : S) → IsPreferred n (prefer zero_speed nodes audits measure (some n) s)
    unfolding prefer
    prefer-IsPreferred n s =
        let chosen = record n { is_preferred_node = true } in
        let (c, u, stored) = law.save_stored chosen s (saves chosen s) in
        (
          stamp_node c u chosen,
          apart.create_apart _ (nodes.save chosen s).0 n.id ∙ stored,
          refl,
          refl,
          refl,
        )

    scan_case :
        (now : ℕ) (s : S) (ns : List (Node F)) (o : Option (Node F))
        → best (none, 99999) ns ≡ o
        → IsLoop (IsCandidate s) (none, 99999) ns
        → let s' =
            prefer zero_speed nodes audits measure o
              (test_candidates zero_speed nodes audits measure now ns s) in
          AreAtLeast 99999 ns × (s' ≡ test_candidates zero_speed nodes audits measure now ns s)
          ⊎ IsSelected s ns s'
    unfolding prefer
    scan_case now s ns none e (inl (none_found, all)) = inl (all, refl)
    scan_case now s ns (some m) e (inl (none_found, all)) = absurd (cc (none_found, e))
    scan_case now s ns none e (inr (n, l, found, candidate, lat, below, all)) =
        absurd (cc (found, e))
    scan_case now s ns (some m) e (inr (n, l, found, candidate, lat, below, all)) =
        let same : m ≡ n = some_inj (sym e ∙ found) in
        inr (
          n,
          l,
          candidate,
          lat,
          below,
          all,
          rw same (prefer-IsPreferred n (test_candidates zero_speed nodes audits measure now ns s)),
        )

    -- Where no preferred node is online and the candidates can be listed, the emergency selection
    -- takes the one that is reached the fastest of those for web sites, in less than 99999
    -- milliseconds, and its row is preferred then, but with the health and the latency that it had
    -- before; where there is none, nothing is written but the measurements of the candidates. The
    -- assumptions are those on the table of the nodes, that its rows can be saved, and that the audit
    -- entries are a table of their own.
    pub ensure-IsSelected :
        (now : ℕ) (s : S) (ns : List (Node F))
        → has_online (list_preferred_nodes nodes s) ≡ false
        → list_candidate_nodes nodes s ≡ some ns
        → let s' = ensure_emergency_best_node_selection zero_speed nodes audits measure now s in
          AreAtLeast 99999 ns × (s' ≡ test_candidates zero_speed nodes audits measure now ns s)
          ⊎ IsSelected s ns s'
    unfolding ensure_emergency_best_node_selection scan best list_candidate_nodes
    ensure-IsSelected now s ns offline listed =
        rw (offline, listed)
          (scan_case now s ns (best (none, 99999) ns) refl
            (best-IsLoop (IsCandidate s) (none, 99999) ns (law.find_sound _ _ _ s ns listed)))
