-- ===== src/Frpc/Manager/Invariant.antt =====
-- What holds of the manager between two calls, whatever the calls, the processes and the contexts
-- do and in whatever order.
use ashan_frp.Base.{
  ℕ, String, ◌≡◌, ◌≢◌, true, Option, none, some, List, [], ◌∷◌, arith, inl, inr, Bool-cases, ◌||◌,
}
use ashan_frp.Base.{string_eq}
use ashan_frp.Domain.Tunnel.{Tunnel}
use ashan_frp.Frpc.Config.{ConfigRenderer, FrpcConfig, Rendered, config, failed as render_failed}
use ashan_frp.Frpc.Manager.{
  Status, stopped, starting, running, degraded, Process, alive, System, Os, update, new_manager,
  on_status_change, set_status, write_config, launch, find_and_launch, after_write, after_render,
  start, stop, is_status, stop_before_restart, mark_restarting, reload, healthcheck, monitor,
}

-- The status that the last call of the callback told.
abbrev pub told : List (Status × String) → Status
told [] = stopped
told ((s, _) ∷ _) = s

pub record IsConsistent (s : System) : Type 0 where
  pub running_handle : s.mgr.status ≡ running → s.mgr.cmd ≢ none
  pub stopped_handle : s.mgr.status ≡ stopped → (s.mgr.cmd ≡ none) × (s.mgr.cancel ≡ none)
  pub settled : (s.mgr.status ≢ starting) × (s.mgr.status ≢ degraded)
  pub registered : s.mgr.on_status_change ≡ true
  pub told_status : told s.calls ≡ s.mgr.status

-- The same, but for the status that only `Start` sees while it holds the lock.
record IsStarting (s : System) : Type 0 where
  begun : s.mgr.status ≡ starting
  registered : s.mgr.on_status_change ≡ true
  told_status : told s.calls ≡ s.mgr.status

launch-IsConsistent : (os : Os) (s : System) → IsStarting s → IsConsistent (launch os s).0
unfolding launch
launch-IsConsistent os s h = ground arith

find_and_launch-IsConsistent :
    (os : Os) (s : System) → IsStarting s → IsConsistent (find_and_launch os s).0
unfolding find_and_launch
find_and_launch-IsConsistent os s h = ground arith

after_write-IsConsistent :
    (os : Os) (w : System × Option String) → IsStarting w.0 → IsConsistent (after_write os w).0
unfolding after_write
after_write-IsConsistent os (s, none) h = find_and_launch-IsConsistent os s h
after_write-IsConsistent os (s, some e) h = ground arith

write_config-IsStarting :
    (os : Os) (c : FrpcConfig) (s : System) → IsStarting s → IsStarting (write_config os c s).0
unfolding write_config
write_config-IsStarting os c s h = ground arith

after_render-IsConsistent :
    (os : Os) (r : Rendered) (s : System) → IsStarting s → IsConsistent (after_render os r s).0
unfolding after_render
after_render-IsConsistent os (render_failed e) s h = ground arith
after_render-IsConsistent os (config c) s h =
    after_write-IsConsistent os _ (write_config-IsStarting os c s h)

begin-IsStarting :
    (s : System) → IsConsistent s → IsStarting (set_status starting "generating config" s)
unfolding set_status
begin-IsStarting s h = ground arith

start-IsConsistent :
    (os : Os) (ts : List Tunnel) (s : System) → IsConsistent s → IsConsistent (start os ts s).0
unfolding start
start-IsConsistent os ts s h =
    let ready = begin-IsStarting s h in
    elim (Bool-cases (is_status s.mgr.status running || is_status s.mgr.status starting)) [
      | inl e ↦ rw (e, start) h
      | inr e ↦ rw (e, start) (after_render-IsConsistent os _ _ ready)
    ]

stop-IsConsistent : (s : System) → IsConsistent s → IsConsistent (stop s)
unfolding stop
stop-IsConsistent s h = ground arith

stop_before_restart-IsConsistent :
    (s : System) → IsConsistent s → IsConsistent (stop_before_restart s)
unfolding stop_before_restart
stop_before_restart-IsConsistent s h = ground arith

mark_restarting-IsConsistent : (s : System) → IsConsistent s → IsConsistent (mark_restarting s)
unfolding mark_restarting
mark_restarting-IsConsistent s h = ground arith

reload-IsConsistent :
    (os : Os) (ts : List Tunnel) (s : System) → IsConsistent s → IsConsistent (reload os ts s).0
unfolding reload
reload-IsConsistent os ts s h = ground arith

healthcheck-IsConsistent :
    (now : ℕ) (s : System) → IsConsistent s → IsConsistent (healthcheck now s).0
unfolding healthcheck
healthcheck-IsConsistent now s h = ground arith

monitor-IsConsistent : (p : ℕ) (s : System) → IsConsistent s → IsConsistent (monitor p s)
unfolding monitor
monitor-IsConsistent p s h = ground arith

new-IsConsistent :
    (d : String) (r : ConfigRenderer) (s : System)
    → s.mgr ≡ on_status_change (new_manager d r)
    → s.calls ≡ []
    → IsConsistent s
unfolding new_manager on_status_change
new-IsConsistent d r s e f = ground arith

-- One step of the manager or of what surrounds it: a call, one of the two parts of `Restart` that
-- come before its `Start`, the end of `monitor`, the end of a context, or that of a process.
pub data Step (s t : System) : Type 0 where
  starts : (os : Os) (ts : List Tunnel) → t ≡ (start os ts s).0 → Step s t
  stops : t ≡ stop s → Step s t
  prepares : t ≡ stop_before_restart s → Step s t
  marks : t ≡ mark_restarting s → Step s t
  reloads : (os : Os) (ts : List Tunnel) → t ≡ (reload os ts s).0 → Step s t
  checks : (now : ℕ) → t ≡ (healthcheck now s).0 → Step s t
  reaps : (p : ℕ) → s.watched p ≡ true → t ≡ monitor p s → Step s t
  ends : (c : ℕ) → t ≡ record s { done = update s.done c true } → Step s t
  dies :
      (p : ℕ) (how : Process)
      → s.proc p ≡ alive
      → t ≡ record s { proc = update s.proc p how }
      → Step s t

-- The steps of a history, the last one outermost.
pub data History (s : System) : System → Type 0 where
  still : History s s
  after : {t u : System} → Step t u → History s t → History s u

Step-IsConsistent : {s t : System} → Step s t → IsConsistent s → IsConsistent t
Step-IsConsistent {s} (starts os ts e) h = rw e (start-IsConsistent os ts s h)
Step-IsConsistent {s} (stops e) h = rw e (stop-IsConsistent s h)
Step-IsConsistent {s} (prepares e) h = rw e (stop_before_restart-IsConsistent s h)
Step-IsConsistent {s} (marks e) h = rw e (mark_restarting-IsConsistent s h)
Step-IsConsistent {s} (reloads os ts e) h = rw e (reload-IsConsistent os ts s h)
Step-IsConsistent {s} (checks now e) h = rw e (healthcheck-IsConsistent now s h)
Step-IsConsistent {s} (reaps p w e) h = rw e (monitor-IsConsistent p s h)
Step-IsConsistent {s} (ends c e) h = ground arith
Step-IsConsistent {s} (dies p how a e) h = ground arith

History-IsConsistent : {s t : System} → IsConsistent s → History s t → IsConsistent t
History-IsConsistent h still = h
History-IsConsistent h (after st past) = Step-IsConsistent st (History-IsConsistent h past)

-- A new manager with a callback, in whatever order the calls come and processes and contexts end,
-- keeps this: while it runs it holds a process; once stopped it holds neither process nor context;
-- it is never seen starting or degraded; and the last status told to the callback is its own.
pub new-History-IsConsistent :
    (d : String) (r : ConfigRenderer) (s : System) {t : System}
    → s.mgr ≡ on_status_change (new_manager d r)
    → s.calls ≡ []
    → History s t
    → IsConsistent t
new-History-IsConsistent d r s e f = History-IsConsistent (new-IsConsistent d r s e f)
