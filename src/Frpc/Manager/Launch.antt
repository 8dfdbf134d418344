-- ===== src/Frpc/Manager/Launch.antt =====
-- What a `Start` without an error leaves behind.
use mathlib.Core.Path.{subst}
use ashan_frp.Base.{
  ℕ, suc, String, ◌≡◌, Option, none, some, List, arith, Bool-cases, Option-cases, inl, inr, ◌||◌,
}
use ashan_frp.Domain.Tunnel.{Tunnel}
use ashan_frp.Frpc.Config.{FrpcConfig, Rendered, config, render, failed as render_failed}
use ashan_frp.Frpc.Manager.{
  starting, running, alive, System, Os, ManagerError, is_status, set_status, launch,
  find_and_launch, after_write, after_render, start, write_config, ensure_binary_locked,
}

-- The process `p` runs, as the manager sees it.
pub record IsRunning (p : ℕ) (s : System) : Type 0 where
  pub status : s.mgr.status ≡ running
  pub handle : s.mgr.cmd ≡ some p
  pub lives : s.proc p ≡ alive

abbrev Launched : ℕ → System × Option ManagerError → Type 0
Launched n r = r.1 ≡ none → IsRunning n r.0 × (r.0.next ≡ suc n)

launch-Launched : (os : Os) (s : System) → Launched s.next (launch os s)
unfolding launch
launch-Launched os s h = ground arith

find_and_launch-Launched : (os : Os) (s : System) → Launched s.next (find_and_launch os s)
unfolding find_and_launch
find_and_launch-Launched os s = elim (Option-cases (ensure_binary_locked os s.mgr)) [
  | inl e ↦ rw (e, find_and_launch) (λ h. cc)
  | inr f ↦
      rw (f.1, find_and_launch)
        (launch-Launched os (record s { mgr = record s.mgr { binary_path = f.0 } }))
]

after_write-Launched : (os : Os) (w : System × Option String) → Launched w.0.next (after_write os w)
unfolding after_write
after_write-Launched os (s, none) = find_and_launch-Launched os s
after_write-Launched os (s, some e) = λ h. cc

next-write_config : (os : Os) (c : FrpcConfig) (s : System) → (write_config os c s).0.next ≡ s.next
unfolding write_config
next-write_config os c s = ground arith

after_render-Launched :
    (os : Os) (r : Rendered) (s : System) → Launched s.next (after_render os r s)
unfolding after_render
after_render-Launched os (render_failed e) s = λ h. cc
after_render-Launched os (config c) s =
    subst (λ n. Launched n (after_write os (write_config os c s))) (next-write_config os c s)
      (after_write-Launched os (write_config os c s))

-- The process of a `Start` without an error runs, and has the number that was next.
pub start-IsRunning :
    (os : Os) (ts : List Tunnel) (s : System)
    → (start os ts s).1 ≡ none
    → IsRunning s.next (start os ts s).0 × ((start os ts s).0.next ≡ suc s.next)
unfolding start
start-IsRunning os ts s =
    elim (Bool-cases (is_status s.mgr.status running || is_status s.mgr.status starting)) [
      | inl e ↦ rw (e, start) (λ h. cc)
      | inr e ↦
          rw (e, start)
            (after_render-Launched os
              (render (set_status starting "generating config" s).mgr.renderer ts)
              (set_status starting "generating config" s))
    ]
