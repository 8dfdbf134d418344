-- ===== src/Http/Frpc/Laws.antt =====
-- What becomes of a process that a request has started.
use ashan_frp.Base.{ℕ, suc, ◌≡◌, true, Option, none, some, List, [], ◌∷◌, select, arith}
use ashan_frp.Domain.Tunnel.{Tunnel}
use ashan_frp.Frpc.Config.{is_enabled}
use ashan_frp.Frpc.Manager.{System, running, Os, update, signaled, healthcheck, monitor}
use ashan_frp.Frpc.Manager.Launch.{IsRunning, start-IsRunning}
use ashan_frp.Http.Frpc.{frpc_start, finish_request}

-- The process is dead, killed through its context, and the manager does not know.
record IsGhost (p : ℕ) (s : System) : Type 0 where
  status : s.mgr.status ≡ running
  handle : s.mgr.cmd ≡ some p
  killed : s.proc p ≡ signaled "killed"
  cancelled : s.done p ≡ true

-- What looks at the process while no request changes the manager.
pub data Probe : Type 0 where
  check : ℕ → Probe
  reap : Probe

abbrev pub probe : ℕ → Probe → System → System
probe p (check now) s = (healthcheck now s).0
probe p reap s = monitor p s

pub watch : ℕ → List Probe → System → System
watch p [] s = s
watch p (a ∷ looks) s = watch p looks (probe p a s)

probe-IsGhost : (p : ℕ) (a : Probe) (s : System) → IsGhost p s → IsGhost p (probe p a s)
unfolding healthcheck monitor
probe-IsGhost p (check now) s h = ground arith
probe-IsGhost p reap s h = ground arith

watch-IsGhost :
    (p : ℕ) (looks : List Probe) (s : System) → IsGhost p s → IsGhost p (watch p looks s)
unfolding watch
watch-IsGhost p [] s h = h
watch-IsGhost p (a ∷ looks) s h = watch-IsGhost p looks (probe p a s) (probe-IsGhost p a s h)

abbrev pub kill : ℕ → System → System
kill p s = record s { proc = update s.proc p (signaled "killed") }

frpc_start-IsRunning :
    (os : Os) (db : Option (List Tunnel)) (s : System)
    → (frpc_start os db s).response.status ≡ 200
    → IsRunning s.next (frpc_start os db s).system × ((frpc_start os db s).system.next ≡ suc s.next)
unfolding frpc_start
frpc_start-IsRunning os none s h = absurd (omega arith)
frpc_start-IsRunning os (some ts) s h = ground (arith, start-IsRunning os (select is_enabled ts) s)

finish_request-cancels :
    (os : Os) (db : Option (List Tunnel)) (s : System)
    → (frpc_start os db s).response.status ≡ 200
    → IsGhost s.next (kill s.next (finish_request s (frpc_start os db s)))
unfolding finish_request
finish_request-cancels os db s h = ground (arith, frpc_start-IsRunning os db s h)

-- The process that a request starts runs under that request's context. Once the request is
-- answered the context is done, and when the process has been killed for it, the manager goes on to
-- report it as running with nothing amiss, however often its health is checked and its end seen.
pub frpc_start-unnoticed_death :
    (os : Os) (db : Option (List Tunnel)) (s : System) (looks : List Probe) (now : ℕ)
    → (frpc_start os db s).response.status ≡ 200
    → let over = finish_request s (frpc_start os db s) in
      let later = watch s.next looks (kill s.next over) in
      (over.done s.next ≡ true)
      × ((healthcheck now later).1 ≡ running)
      × ((healthcheck now later).2 ≡ "")
unfolding healthcheck finish_request
frpc_start-unnoticed_death os db s looks now h =
    let ghost = watch-IsGhost s.next looks _ (finish_request-cancels os db s h) in
    ground (arith, ghost, frpc_start-IsRunning os db s h)
