-- ===== src/Frpc/Toml.antt =====
-- frp-backend/internal/frpc/manager.go, `writeConfig`: the lines of frpc.toml.
use ashan_frp.Base.{String, ◌<>◌, Bool, List, [], ◌∷◌, ◌++◌}
use ashan_frp.Base.{◌==◌, string_eq, if◌then◌else◌}
use ashan_frp.Base.Int.{is_positive}
use ashan_frp.Base.Text.{quote, show_int, show_bool}
use ashan_frp.Frpc.Config.{FrpcConfig, FrpcProxyConfig}

abbrev only_if : Bool → String → List String
only_if b line = if b then line ∷ [] else []

abbrev unless_empty : String → String → List String
unless_empty value line = if value == "" then [] else line ∷ []

proxy_lines : FrpcProxyConfig → List String
proxy_lines p =
    "[[proxies]]"
    ∷ ("name = " <> quote p.name)
    ∷ ("type = " <> quote p.type)
    ∷ ("local_ip = " <> quote p.local_ip)
    ∷ ("local_port = " <> show_int p.local_port)
    ∷ (only_if (is_positive p.remote_port) ("remote_port = " <> show_int p.remote_port)
        ++ unless_empty p.subdomain ("subdomain = " <> quote p.subdomain)
        ++ unless_empty p.custom_domains ("custom_domains = " <> quote p.custom_domains)
        ++ ("encryption = " <> show_bool p.encryption)
          ∷ ("compression = " <> show_bool p.compression)
          ∷ ""
          ∷ [])

all_proxy_lines : List FrpcProxyConfig → List String
all_proxy_lines [] = []
all_proxy_lines (p ∷ ps) = proxy_lines p ++ all_proxy_lines ps

unfoldable pub toml_lines : String → FrpcConfig → List String
unfolding proxy_lines all_proxy_lines quote show_int
toml_lines work_dir cfg =
    ("server_addr = " <> quote cfg.server_addr)
    ∷ ("server_port = " <> show_int cfg.server_port)
    ∷ (unless_empty cfg.auth_token ("auth_token = " <> quote cfg.auth_token)
        ++ ("log_file = " <> quote (work_dir <> "/logs/frpc.log"))
          ∷ ("log_level = " <> quote cfg.log_level)
          ∷ ("log_max_days = " <> show_int cfg.log_max_days)
          ∷ ""
          ∷ all_proxy_lines cfg.proxies)
