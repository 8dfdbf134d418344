-- ===== src/Examples/Chmlfrp.antt =====
-- The client of ChmlFrp at concrete inputs.
use ashan_frp.Base.{ℕ, ◌≡◌, refl, String, ◌<>◌, true, false, Option, some, none, List, [], ◌∷◌}
use ashan_frp.Base.Int.{pos}
use ashan_frp.Base.Result.{Result, ok, failed, is_failed}
use ashan_frp.Base.Text.{
  trim_space, trim_left, trim_right, trim_right_step, to_lower, contains, after,
}
use ashan_frp.Chmlfrp.{
  Generic, body, unread, Remote, RemoteTunnel, body_signals_failure, object_failed, is_error_state,
  starts, get_tunnels, attempt_name, prefixed, create_remote_tunnel, attempts, go_on, attempt,
  after_v2, looked_up, find_id,
}
use ashan_frp.Chmlfrp.Created.{
  Accepted, create_remote_tunnel-Accepted, create_remote_tunnel-orphans,
}

abbrev success_body : String
success_body = "{\"code\":200}"

abbrev object : String → Option Generic
object b = some (record { success = none; code = some (pos 200); state = none })

abbrev add : String → List String → List String
add name names = name ∷ names

-- Every request is taken; the lists are as they are given.
abbrev remote : Result (List RemoteTunnel) → Remote (List String)
remote listed = record {
  create_v2 = λ name names. (add name names, body success_body);
  create_v1 = λ name names. (names, unread "offline");
  delete_v2 = λ id names. (names, unread "offline");
  delete_v1 = λ id names. (names, unread "offline");
  tunnels_v2 = λ names. none;
  tunnels_v1 = λ names. listed;
  decode = object;
}

abbrev suffix : ℕ → String
suffix n = "ab12"

no_failure : body_signals_failure object success_body ≡ false
unfolding body_signals_failure object_failed is_error_state starts trim_space trim_left trim_right
    trim_right_step to_lower contains after
no_failure = refl

-- A body that repeats the name of a tunnel such as failover counts as a failure, whatever it says.
failover_run : body_signals_failure object "{\"code\":200,\"name\":\"failover\"}" ≡ true
unfolding body_signals_failure trim_space trim_left trim_right trim_right_step to_lower contains
failover_run = refl

listed : Result (List RemoteTunnel)
listed = ok (record { id = "77"; name = "[ashan-frp]blog" } ∷ [])

created : (create_remote_tunnel (remote listed) "blog" suffix []).1 ≡ ok "77"
unfolding create_remote_tunnel attempts go_on attempt after_v2 looked_up find_id get_tunnels listed
    starts after body_signals_failure object_failed is_error_state trim_space trim_left trim_right
    trim_right_step to_lower contains
created = refl

create_remote_tunnel-Accepted_example :
    (m : ℕ) × Accepted (remote listed) (
      attempt_name
        (remote listed)
        (prefixed (remote listed) "blog" (starts "[ashan-frp]" "blog"))
        suffix
        m)
create_remote_tunnel-Accepted_example =
    create_remote_tunnel-Accepted (remote listed) "blog" "77" suffix [] created

unlisted :
    (n : String) (y : List String)
    → get_tunnels (remote (failed "timeout")) (add n y) ≡ failed "timeout"
unfolding get_tunnels
unlisted n y = refl

create_remote_tunnel-orphans_example :
    let full = prefixed (remote (failed "timeout")) "blog" (starts "[ashan-frp]" "blog") in
    let r = create_remote_tunnel (remote (failed "timeout")) "blog" suffix [] in
    (r.0 ≡ add (full <> ("-" <> suffix 2)) (add (full <> ("-" <> suffix 1)) (add full [])))
    × (is_failed r.1 ≡ true)
create_remote_tunnel-orphans_example =
    create_remote_tunnel-orphans (remote (failed "timeout")) add success_body "timeout" "blog"
      suffix [] (λ n y. refl) no_failure unlisted
