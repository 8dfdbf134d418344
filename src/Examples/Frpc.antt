-- ===== src/Examples/Frpc.antt =====
-- The configuration and the manager of frpc at concrete inputs.
use ashan_frp.Base.{◌≡◌, ◌≢◌, refl, true, false, none, some, List, [], ◌∷◌, select, arith, ◌↔◌}
use ashan_frp.Base.Int.{pos, ◌≤ℤ◌}
use ashan_frp.Base.Text.{to_lower, replace_char, trim_space, quote}
use ashan_frp.Domain.Tunnel.{Tunnel, zero_tunnel}
use ashan_frp.Frpc.Config.{
  ConfigRenderer, FrpcConfig, config, render, proxy_name, proxy_type, proxy_of, proxies,
}
use ashan_frp.Frpc.Config.Laws.{render-config_iff}
use ashan_frp.Frpc.Toml.{toml_lines}
use ashan_frp.Frpc.Manager.{
  System, Os, running, absent, new_manager, on_status_change, start, stop, healthcheck,
}
use ashan_frp.Frpc.Manager.Invariant.{
  IsConsistent, starts, stops, still, after, new-History-IsConsistent,
}
use ashan_frp.Http.Frpc.{frpc_start, finish_request}
use ashan_frp.Http.Frpc.Laws.{Probe, check, reap, watch, kill, frpc_start-unnoticed_death}

abbrev blog : Tunnel
blog = record zero_tunnel {
  id = "tun_1";
  project_name = "my blog.v2";
  full_domain = "blog.example.org";
  subdomain = "blog";
  protocol = "HTTPS";
  desired_state = "enabled";
  local_ip = "127.0.0.1";
  local_port = pos 8080;
  remote_port = pos 7001;
}

abbrev game : Tunnel
game = record zero_tunnel {
  id = "tun_2";
  name = "game";
  protocol = "udp";
  desired_state = "disabled";
  remote_port = pos 9;
}

abbrev renderer : ConfigRenderer
renderer = record {
  server_addr = "frp.example.org";
  server_port = pos 7000;
  auth_token = "";
  log_level = "info";
  log_max_days = pos 3;
}

blog_type : proxy_type "HTTPS" ≡ "https"
unfolding proxy_type to_lower
blog_type = refl

blog_name : proxy_name blog ≡ "my_blog_v2"
unfolding proxy_name replace_char
blog_name = refl

trimmed : trim_space " \t a b  \n" ≡ "a b"
unfolding trim_space
trimmed = refl

quoted : quote "a\"b\\" ≡ "\"a\\\"b\\\\\""
unfolding quote
quoted = refl

abbrev blog_config : FrpcConfig
blog_config = record {
  server_addr = "frp.example.org";
  server_port = pos 7000;
  auth_token = "";
  log_file = "";
  log_level = "info";
  log_max_days = pos 3;
  proxies =
      record {
        name = "my_blog_v2";
        type = "https";
        local_ip = "127.0.0.1";
        local_port = pos 8080;
        remote_port = pos 0;
        subdomain = "blog";
        custom_domains = "blog.example.org";
        encryption = true;
        compression = true;
      }
      ∷ [];
}

rendered : render renderer (blog ∷ game ∷ []) ≡ config blog_config
unfolding render proxies proxy_of proxy_name proxy_type replace_char to_lower
rendered = refl

written :
    toml_lines "/app" blog_config
    ≡ "server_addr = \"frp.example.org\"" ∷ "server_port = 7000"
      ∷ "log_file = \"/app/logs/frpc.log\"" ∷ "log_level = \"info\"" ∷ "log_max_days = 3" ∷ ""
      ∷ "[[proxies]]" ∷ "name = \"my_blog_v2\"" ∷ "type = \"https\"" ∷ "local_ip = \"127.0.0.1\""
      ∷ "local_port = 8080" ∷ "subdomain = \"blog\"" ∷ "custom_domains = \"blog.example.org\""
      ∷ "encryption = true" ∷ "compression = true" ∷ "" ∷ []
unfolding toml_lines
written = refl

render-config_iff_example : ((c : FrpcConfig) × (render renderer (blog ∷ []) ≡ config c)) ↔ (
    (renderer.server_addr ≢ "")
    × (pos 1 ≤ℤ renderer.server_port)
    × (renderer.server_port ≤ℤ pos 65535))
render-config_iff_example = render-config_iff renderer (blog ∷ [])

abbrev os : Os
os = record {
  mkdir_error = none;
  create_error = none;
  stat = λ path. true;
  look_path = none;
  spawn_error = none;
  signal_error = none;
}

idle : System
unfolding new_manager on_status_change
idle = record {
  mgr = on_status_change (new_manager "/app" renderer);
  next = 0;
  done = λ c. false;
  proc = λ p. absent;
  watched = λ p. false;
  file = none;
  calls = [];
}

busy : System
unfolding start idle
busy = (start os (blog ∷ []) idle).0

idle-IsConsistent : IsConsistent idle
unfolding idle
idle-IsConsistent = ground arith

new-History-IsConsistent_example : IsConsistent (stop busy)
unfolding idle busy
new-History-IsConsistent_example =
    new-History-IsConsistent "/app" renderer idle refl refl
      (after (stops refl) (after (starts os (blog ∷ []) refl) still))

abbrev looks : List Probe
looks = check 5 ∷ reap ∷ check 6 ∷ []

served : (frpc_start os (some (blog ∷ [])) idle).response.status ≡ 200
unfolding frpc_start start idle select render
served = refl

frpc_start-unnoticed_death_example :
    let over = finish_request idle (frpc_start os (some (blog ∷ [])) idle) in
    let later = watch idle.next looks (kill idle.next over) in
    (over.done idle.next ≡ true)
    × ((healthcheck 7 later).1 ≡ running)
    × ((healthcheck 7 later).2 ≡ "")
frpc_start-unnoticed_death_example =
    frpc_start-unnoticed_death os (some (blog ∷ [])) idle looks 7 served
