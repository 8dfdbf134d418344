-- ===== src/Worker/Works/Refreshed.antt =====
-- What a refresh of the nodes by a job leaves of their rows.
use ashan_frp.Base.{
  String, ◌<>◌, ◌≡◌, refl, sym, ◌∙◌, true, false, Option, none, some, List, [], ◌∷◌, All,
  Bool-cases, inl, inr, eq_iff, arith,
}
use mathlib.Core.Path.{subst}
use ashan_frp.Base.{◌==◌, string_eq}
use ashan_frp.Base.Text.{show_nat}
use ashan_frp.Base.Result.{Result, ok, failed}
use ashan_frp.Domain.Job.{Job}
use ashan_frp.Domain.Node.{Node, ChmlFrpNode}
use ashan_frp.Domain.Credential.{UpstreamCredential}
use ashan_frp.Repository.{Table, IsTable, success}
use ashan_frp.Repository.Credentials.{find_credential_by_provider}
use ashan_frp.Worker.Deprovision.{Outside}
use ashan_frp.Worker.Nodes.Stale.{stamp_node}
use ashan_frp.Worker.Works.{
  refreshed_node, refresh_each, counted, fetched, with_secret, with_credential, refresh_nodes,
}

-- As new: not preferred, without notes, never measured.
abbrev pub IsFresh : {F : Type 0} → F → Node F → Type 0
IsFresh zero_speed r =
    (r.is_preferred_node ≡ false)
    × (r.notes ≡ "")
    × (r.real_ip ≡ "")
    × (r.latency_ms ≡ 0)
    × (r.speed_mbps ≡ zero_speed)
    × (r.last_speed_tested_at ≡ none)

-- The identifier under which a job writes a node of ChmlFrp.
abbrev pub job_node_id : ChmlFrpNode → String
job_node_id cn = "node_chmlfrp_" <> show_nat cn.id

module _ {F S : Type 0} (zero_speed : F) (metadata : ChmlFrpNode → String)
    (nodes : Table S (Node F)) where
  abbrev pub IsRowFresh : String → S → Type 0
  IsRowFresh k s = (r : Node F) × (nodes.row k s ≡ some r) × IsFresh zero_speed r

  module _ (law : IsTable nodes (λ n. n.id) stamp_node)
      (saves : (n : Node F) (s : S) → (nodes.save n s).1 ≡ true) where
    saved-IsRowFresh :
        (cn : ChmlFrpNode) (s : S)
        → IsRowFresh (job_node_id cn) (nodes.save (refreshed_node zero_speed metadata cn) s).0
    unfolding refreshed_node
    saved-IsRowFresh cn s =
        let fresh = refreshed_node zero_speed metadata cn in
        let (c, u, stored) = law.save_stored fresh s (saves fresh s) in
        (stamp_node c u fresh, stored, (refl, refl, refl, refl, refl, refl))

    kept-IsRowFresh :
        (cn : ChmlFrpNode) (s : S) (k : String)
        → IsRowFresh k s
        → IsRowFresh k (nodes.save (refreshed_node zero_speed metadata cn) s).0
    unfolding refreshed_node
    kept-IsRowFresh cn s k (r, at, fresh) = elim (Bool-cases (k == job_node_id cn)) [
      | inl same ↦
          subst (λ x. IsRowFresh x (nodes.save (refreshed_node zero_speed metadata cn) s).0)
            (sym ((eq_iff k (job_node_id cn)).0 same)) (saved-IsRowFresh cn s)
      | inr other ↦ (
        r,
        law.save_other (refreshed_node zero_speed metadata cn) s k
              (λ e. ground (other, arith, eq_iff k (job_node_id cn), e))
            ∙ at,
        fresh,
      )
    ]

    refresh_each-kept :
        (cns : List ChmlFrpNode) (s : S) (k : String)
        → IsRowFresh k s
        → IsRowFresh k (refresh_each zero_speed metadata nodes cns s).0
    unfolding refresh_each
    refresh_each-kept [] s k h = h
    refresh_each-kept (cn ∷ cns) s k h =
        refresh_each-kept cns (nodes.save (refreshed_node zero_speed metadata cn) s).0 k
          (kept-IsRowFresh cn s k h)

    refresh_each-IsRowFresh :
        (cns : List ChmlFrpNode) (s : S)
        → All
            (λ cn. IsRowFresh (job_node_id cn) (refresh_each zero_speed metadata nodes cns s).0)
            cns
    unfolding refresh_each
    refresh_each-IsRowFresh [] s = tt
    refresh_each-IsRowFresh (cn ∷ cns) s =
        let s1 = (nodes.save (refreshed_node zero_speed metadata cn) s).0 in
        (
          refresh_each-kept cns s1 (job_node_id cn) (saved-IsRowFresh cn s),
          refresh_each-IsRowFresh cns s1,
        )

    module _ {Z : Type 0} (credentials : Table S UpstreamCredential)
        (decrypt : String → Option String)
        (get_nodes : UpstreamCredential → String → Z → Result (List ChmlFrpNode)) where
      -- An error leaves the database alone; after a success each node that ChmlFrp has listed is as
      -- new.
      abbrev pub IsReset : Outside S Z → Outside S Z × Result String → Type 0
      IsReset w (w', failed e) = w'.db ≡ w.db
      IsReset w (w', ok json) =
          (c : UpstreamCredential) × (secret : String) × (cns : List ChmlFrpNode) × (get_nodes c
              secret w.remote
            ≡ ok cns)
          × All (λ cn. IsRowFresh (job_node_id cn) w'.db) cns

      fetched-IsReset :
          (job : Job) (c : UpstreamCredential) (secret : String) (w w1 : Outside S Z)
          (r : Result (List ChmlFrpNode))
          → w1.db ≡ w.db
          → get_nodes c secret w.remote ≡ r
          → IsReset w (fetched zero_speed metadata nodes credentials decrypt get_nodes job w1 r)
      unfolding fetched counted
      fetched-IsReset job c secret w w1 (failed e) same got = same
      fetched-IsReset job c secret w w1 (ok cns) same got =
          (c, secret, cns, got, refresh_each-IsRowFresh cns w1.db)

      with_secret-IsReset :
          (job : Job) (c : UpstreamCredential) (o : Option String) (w : Outside S Z)
          → IsReset w
              (with_secret zero_speed metadata nodes credentials decrypt get_nodes job c o w)
      unfolding with_secret
      with_secret-IsReset job c none w = refl
      with_secret-IsReset job c (some secret) w =
          fetched-IsReset job c secret w _ (get_nodes c secret w.remote) refl refl

      with_credential-IsReset :
          (job : Job) (o : Option UpstreamCredential) (w : Outside S Z)
          → IsReset w
              (with_credential zero_speed metadata nodes credentials decrypt get_nodes job o w)
      unfolding with_credential
      with_credential-IsReset job none w = refl
      with_credential-IsReset job (some c) w = with_secret-IsReset job c _ w

      -- A refresh of the nodes that fails leaves the database alone. One that succeeds leaves every
      -- node that ChmlFrp has listed, under the identifier that the job gives it, as a new one: not
      -- preferred, without notes and address, and never measured, whatever its row held before. The
      -- assumptions are those on the table of the nodes, and that its rows can be saved.
      pub refresh_nodes-IsReset :
          (job : Job) (w : Outside S Z)
          → IsReset w (refresh_nodes zero_speed metadata nodes credentials decrypt get_nodes job w)
      unfolding refresh_nodes
      refresh_nodes-IsReset job w =
          with_credential-IsReset job
            (success (find_credential_by_provider credentials "chmlfrp" w.db)) w
