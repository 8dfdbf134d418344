-- ===== src/Http/Frpc.antt =====
-- frp-backend/internal/http/handlers/frpc.go: the requests that drive the manager. A handler takes
-- the tunnels of `ListTunnels`, none if the database failed, and returns the system, the answer
-- and the action that it writes to the audit log.
pub mod Laws
use ashan_frp.Base.{ℕ, leb, ltb, String, Bool, true, ◌||◌, ◌&&◌, Option, none, some, List, select}
use ashan_frp.Domain.Tunnel.{Tunnel}
use ashan_frp.Frpc.Config.{is_enabled}
use ashan_frp.Frpc.Manager.{
  System, Status, Os, ManagerError, start, stop, restart, reload, healthcheck,
}
use ashan_frp.Http.Response.{Response, respond, refuse}

pub record Served : Type 0 where
  pub system : System
  pub response : Response
  pub audit : Option String

-- The answer to the error of a call of the manager.
unfoldable pub answer : String → String → System × Option ManagerError → Served
answer action code (sys, none) = record {
  system = sys;
  response = respond 200;
  audit = some action;
}
answer action code (sys, some _) = record { system = sys; response = refuse 400 code; audit = none }

abbrev internal : System → Served
internal sys = record { system = sys; response = refuse 500 "INTERNAL"; audit = none }

unfoldable pub frpc_start : Os → Option (List Tunnel) → System → Served
unfolding answer
frpc_start os none sys = internal sys
frpc_start os (some tunnels) sys =
    answer "frpc.start" "START_FAILED" (start os (select is_enabled tunnels) sys)

-- `Stop` of the manager returns no error.
unfoldable pub frpc_stop : System → Served
unfolding answer
frpc_stop sys = answer "frpc.stop" "STOP_FAILED" (stop sys, none)

unfoldable pub frpc_restart : Os → Option (List Tunnel) → System → Served
unfolding answer
frpc_restart os none sys = internal sys
frpc_restart os (some tunnels) sys =
    answer "frpc.restart" "RESTART_FAILED" (restart os (select is_enabled tunnels) sys)

unfoldable pub frpc_reload : Os → Option (List Tunnel) → System → Served
unfolding answer
frpc_reload os none sys = internal sys
frpc_reload os (some tunnels) sys =
    answer "frpc.reload" "RELOAD_FAILED" (reload os (select is_enabled tunnels) sys)

-- `net/http` cancels the context of a request when its handler returns, and with it the contexts
-- that the handler derived from it: those numbered since the request came.
unfoldable pub finish_request : System → Served → System
finish_request before served = record served.system {
  done = λ c. served.system.done c || (leb before.next c && ltb c served.system.next);
}
