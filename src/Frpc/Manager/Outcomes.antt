-- ===== src/Frpc/Manager/Outcomes.antt =====
-- How each call of the manager ends, on every branch.
use ashan_frp.Base.{
  ◌≡◌, ◌≢◌, refl, true, Option, none, some, List, arith, ◌⊎◌, inl, inr, Bool-cases, ◌||◌, false, ℕ,
}
use ashan_frp.Domain.Tunnel.{Tunnel}
use ashan_frp.Frpc.Config.{Rendered, config, failed as render_failed}
use ashan_frp.Frpc.Manager.{
  Status, stopped, starting, running, degraded, failed, System, Os, ManagerError, cannot_start,
  is_status, after_render, start, stop, restart, reload,
}
use ashan_frp.Frpc.Manager.Invariant.{IsConsistent}

-- A call of `Start` that was let in either runs, with no error, or has failed, with one that is not
-- the refusal.
abbrev pub Ended : System × Option ManagerError → Type 0
Ended r =
    ((r.0.mgr.status ≡ running) × (r.1 ≡ none))
    ⊎ ((r.0.mgr.status ≡ failed) × (r.1 ≢ none) × ((s : Status) → r.1 ≢ some (cannot_start s)))

after_render-Ended : (os : Os) (r : Rendered) (s : System) → Ended (after_render os r s)
unfolding after_render
after_render-Ended os (render_failed e) s = inr (refl, (λ e. cc), (λ s e. cc))
after_render-Ended os (config c) s = ground arith

-- `Start` leaves a running manager as it was, with an error; any other that is not starting it
-- takes to running, with no error, or to failed, with an error.
pub start_outcome :
    (os : Os) (ts : List Tunnel) (s : System)
    → s.mgr.status ≢ starting
    → ((s.mgr.status ≡ running) × (start os ts s ≡ (s, some (cannot_start running))))
      ⊎ ((s.mgr.status ≢ running) × Ended (start os ts s))
unfolding start
start_outcome os ts s h = elim (Bool-cases (is_status s.mgr.status running)) [
  | inl e ↦ inl (ground arith, rw (e, start) (ground arith))
  | inr e ↦
      let idle : (is_status s.mgr.status running || is_status s.mgr.status starting) ≡ false =
        ground arith in
      inr (ground arith, rw (idle, start) (after_render-Ended os _ _))
]

-- `Restart` is never refused: from any status it ends running or failed.
pub restart_outcome : (os : Os) (ts : List Tunnel) (s : System) → Ended (restart os ts s)
unfolding restart
restart_outcome os ts s = after_render-Ended os _ _

-- `Reload` changes nothing of the manager or the processes, and works only on a manager that runs.
pub reload_outcome :
    (os : Os) (ts : List Tunnel) (s : System)
    → let r = reload os ts s in
      (r.0.mgr ≡ s.mgr)
      × (r.0.proc ≡ s.proc)
      × (r.0.calls ≡ s.calls)
      × (r.1 ≡ none → (s.mgr.status ≡ running) ⊎ (s.mgr.status ≡ degraded))
unfolding reload
reload_outcome os ts s = ground arith

-- `Stop` ends stopped, with no process and no context at hand, and a context that it held is done.
pub stop_outcome :
    (s : System)
    → IsConsistent s
    → ((stop s).mgr.status ≡ stopped)
      × ((stop s).mgr.cmd ≡ none)
      × ((stop s).mgr.cancel ≡ none)
      × ((c : ℕ) → s.mgr.cancel ≡ some c → (stop s).done c ≡ true)
unfolding stop
stop_outcome s h = ground arith
