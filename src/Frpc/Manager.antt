-- ===== src/Frpc/Manager.antt =====
-- frp-backend/internal/frpc/manager.go: the life of the frpc process. The manager stands in a
-- `System` with what lies outside of it: contexts, processes and the configuration file. A process
-- and its context share a number. What the operating system answers in a call is an `Os`.
pub mod Invariant
pub mod Launch
pub mod Outcomes
use ashan_frp.Base.{
  ℕ, suc, ◌+◌, String, ◌<>◌, Bool, true, false, not, ◌||◌, ◌&&◌, Option, none, some, List, [], ◌∷◌,
}
use ashan_frp.Base.{◌==◌, string_eq, nat_beq, nat_eq, if◌then◌else◌}
use ashan_frp.Base.Text.{show_nat, show_int, trim_space}
use ashan_frp.Domain.Tunnel.{Tunnel}
use ashan_frp.Frpc.Config.{
  ConfigRenderer, FrpcConfig, Rendered, RenderError, server_addr_required, server_port_out_of_range,
  config, failed as render_failed, render,
}
use ashan_frp.Frpc.Toml.{toml_lines}

pub data Status : Type 0 where
  stopped starting running degraded restarting failed : Status

abbrev status_code : Status → ℕ
status_code stopped = 0
status_code starting = 1
status_code running = 2
status_code degraded = 3
status_code restarting = 4
status_code failed = 5

abbrev pub is_status : Status → Status → Bool
is_status s t = nat_beq (status_code s) (status_code t)

pub record Manager : Type 0 where
  pub status : Status
  pub work_dir : String
  pub binary_path : String
  pub config_path : String
  pub cmd : Option ℕ
  pub cancel : Option ℕ
  pub renderer : ConfigRenderer
  pub healthcheck_interval : ℕ
  pub last_healthcheck : Option ℕ
  pub last_error : String
  pub on_status_change : Bool  -- a callback is registered

-- A process as `cmd.ProcessState` shows it once `Wait` has returned.
pub data Process : Type 0 where
  absent alive : Process
  exited : ℕ → Process
  signaled : String → Process  -- with the signal's name

pub record System : Type 0 where
  pub mgr : Manager
  pub next : ℕ  -- the number of the next context
  pub done : ℕ → Bool  -- the context is cancelled
  pub proc : ℕ → Process
  pub watched : ℕ → Bool  -- the goroutine `monitor` has not run its end yet
  pub file : Option (List String)
  pub calls : List (Status × String)  -- calls of `onStatusChange`, the newest first

pub record Os : Type 0 where
  pub mkdir_error : Option String
  pub create_error : Option String
  pub stat : String → Bool
  pub look_path : Option String
  pub spawn_error : Option String
  pub signal_error : Option String

pub data ManagerError : Type 0 where
  cannot_start cannot_reload : Status → ManagerError
  config_render : RenderError → ManagerError
  write_failed start_process signal_reload : String → ManagerError
  binary_check : String → ManagerError

abbrev pub update {ℓ} : {A : Type ℓ} → (ℕ → A) → ℕ → A → ℕ → A
update f n a m = if nat_beq m n then a else f m

unfoldable pub new_manager : String → ConfigRenderer → Manager
new_manager work_dir renderer = record {
  status = stopped;
  work_dir = work_dir;
  binary_path = work_dir <> "/bin/frpc";
  config_path = work_dir <> "/frpc.toml";
  cmd = none;
  cancel = none;
  renderer = renderer;
  healthcheck_interval = 30000000000;
  last_healthcheck = none;
  last_error = "";
  on_status_change = false;
}

unfoldable pub set_binary_path : String → Manager → Manager
set_binary_path path m = record m { binary_path = path }

unfoldable pub set_healthcheck_interval : ℕ → Manager → Manager
set_healthcheck_interval d m = record m { healthcheck_interval = d }

unfoldable pub on_status_change : Manager → Manager
on_status_change m = record m { on_status_change = true }

unfoldable pub set_status : Status → String → System → System
set_status s reason sys =
    let m = sys.mgr in
    record sys {
      mgr = record m { status = s; last_error = if reason == "" then m.last_error else reason };
      calls =
          if not (is_status m.status s) && m.on_status_change
          then (s, reason) ∷ sys.calls
          else sys.calls;
    }

render_error_text : RenderError → String
render_error_text server_addr_required = "frpc config: server_addr is required"
render_error_text (server_port_out_of_range p) =
    "frpc config: server_port must be 1-65535, got " <> show_int p

-- `writeConfig`: the new system, and the error if there is one.
unfoldable pub write_config : Os → FrpcConfig → System → System × Option String
write_config os cfg sys = elim os.mkdir_error [
  | some e ↦ (sys, some e)
  | none ↦ elim os.create_error [
    | some e ↦ (sys, some e)
    | none ↦ (record sys { file = some (toml_lines sys.mgr.work_dir cfg) }, none)
  ]
]

-- The first candidate that exists.
first_existing : Os → List String → Option String
first_existing os [] = none
first_existing os (c ∷ cs) = let rest = first_existing os cs in if os.stat c then some c else rest

-- `ensureBinaryLocked`: the path of a binary that exists, or none.
unfoldable pub ensure_binary_locked : Os → Manager → Option String
unfolding first_existing
ensure_binary_locked os m =
    if os.stat m.binary_path then some m.binary_path else elim os.look_path [
      | some path ↦ some path
      | none ↦
          first_existing os (
            "/usr/local/bin/frpc"
            ∷ "/usr/bin/frpc"
            ∷ "/app/bin/frpc"
            ∷ (m.work_dir <> "/frpc")
            ∷ [])
    ]

fail_with : String → ManagerError → System → System × Option ManagerError
fail_with reason e sys = (set_status failed reason sys, some e)

-- `Start` from `context.WithCancel` on.
launch : Os → System → System × Option ManagerError
unfolding fail_with set_status
launch os sys =
    let c = sys.next in
    let opened = record sys { mgr = record sys.mgr { cancel = some c }; next = suc c } in
    elim os.spawn_error [
      | some e ↦ fail_with e (start_process e) (record opened { done = update sys.done c true })
      | none ↦ (
        set_status running "process started" (record opened {
          mgr = record opened.mgr { cmd = some c };
          proc = update sys.proc c alive;
          watched = update sys.watched c true;
        }),
        none,
      )
    ]

-- `Start` from `ensureBinaryLocked` on.
find_and_launch : Os → System → System × Option ManagerError
unfolding launch ensure_binary_locked
find_and_launch os sys = elim (ensure_binary_locked os sys.mgr) [
  | none ↦
      let reason = "frpc binary not found at " <> (sys.mgr.binary_path <> " or PATH") in
      fail_with reason (binary_check reason) sys
  | some path ↦ launch os (record sys { mgr = record sys.mgr { binary_path = path } })
]

after_write : Os → System × Option String → System × Option ManagerError
unfolding find_and_launch
after_write os (sys, some e) = fail_with e (write_failed e) sys
after_write os (sys, none) = find_and_launch os sys

after_render : Os → Rendered → System → System × Option ManagerError
unfolding after_write write_config render_error_text
after_render os (render_failed e) sys = fail_with (render_error_text e) (config_render e) sys
after_render os (config cfg) sys = after_write os (write_config os cfg sys)

unfoldable pub start : Os → List Tunnel → System → System × Option ManagerError
unfolding after_render
start os tunnels sys =
    if is_status sys.mgr.status running || is_status sys.mgr.status starting
    then (sys, some (cannot_start sys.mgr.status))
    else let begun = set_status starting "generating config" sys in
      after_render os (render begun.mgr.renderer tunnels) begun

cancel_context : Option ℕ → System → System
cancel_context none sys = sys
cancel_context (some c) sys = record sys {
  mgr = record sys.mgr { cancel = none };
  done = update sys.done c true;
}

-- `Stop`. How the process takes the signal, and the kill of its context, is up to it.
unfoldable pub stop : System → System
unfolding cancel_context set_status
stop sys =
    if is_status sys.mgr.status stopped
    then sys
    else let cancelled = cancel_context sys.mgr.cancel sys in
      set_status stopped "stopped by request"
        (record cancelled { mgr = record cancelled.mgr { cmd = none } })

-- The two parts of `Restart` before it calls `Start`; each holds the lock for itself.
unfoldable pub stop_before_restart : System → System
unfolding stop
stop_before_restart sys =
    if is_status sys.mgr.status running || is_status sys.mgr.status degraded then stop sys else sys

unfoldable pub mark_restarting : System → System
unfolding set_status
mark_restarting sys = set_status restarting "restarting" sys

-- `Restart`, when no other call comes between its parts.
unfoldable pub restart : Os → List Tunnel → System → System × Option ManagerError
unfolding stop_before_restart mark_restarting start
restart os tunnels sys = start os tunnels (mark_restarting (stop_before_restart sys))

signal_process : Os → System × Option String → System × Option ManagerError
signal_process os (sys, some e) = (sys, some (write_failed e))
signal_process os (sys, none) = elim sys.mgr.cmd [
  | none ↦ (sys, none)
  | some p ↦ elim os.signal_error [ none ↦ (sys, none) | some e ↦ (sys, some (signal_reload e)) ]
]

unfoldable pub reload : Os → List Tunnel → System → System × Option ManagerError
unfolding signal_process write_config
reload os tunnels sys =
    if not (is_status sys.mgr.status running) && not (is_status sys.mgr.status degraded)
    then (sys, some (cannot_reload sys.mgr.status))
    else elim (render sys.mgr.renderer tunnels) [
      | render_failed e ↦ (sys, some (config_render e))
      | config cfg ↦ signal_process os (write_config os cfg sys)
    ]

-- What `Healthcheck` makes of the process behind the handle.
check_process : Process → System → System × Status × String
unfolding set_status
check_process (exited code) sys =
    let reason = "process exited with code " <> show_nat code in
    (set_status failed reason sys, failed, reason)
check_process _ sys = (sys, sys.mgr.status, "")

unfoldable pub healthcheck : ℕ → System → System × Status × String
unfolding check_process set_status
healthcheck now sys =
    let checked = record sys { mgr = record sys.mgr { last_healthcheck = some now } } in
    if is_status sys.mgr.status stopped
    then (checked, stopped, "not running")
    else elim sys.mgr.cmd [
      | none ↦
          let lost = set_status failed "process handle missing" checked in
          (lost, lost.mgr.status, lost.mgr.last_error)
      | some p ↦ check_process (sys.proc p) checked
    ]

-- What `monitor` says of the error of `Wait`; none where there is no error.
abbrev exit_text : Process → Option String
exit_text (exited code) =
    if nat_beq code 0 then none else some (show_nat code <> ("): exit status " <> show_nat code))
exit_text (signaled signal) = some ("-1): signal: " <> signal)
exit_text _ = none

-- The end of `monitor`, after `cmd.Wait` has returned for the process.
unfoldable pub monitor : ℕ → System → System
unfolding set_status
monitor p sys =
    let seen = record sys { watched = update sys.watched p false } in
    if sys.done p then seen else elim (exit_text (sys.proc p)) [
      | none ↦ seen
      | some code ↦ set_status failed ("frpc exited unexpectedly (code " <> code) seen
    ]
