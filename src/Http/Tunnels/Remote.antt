-- ===== src/Http/Tunnels/Remote.antt =====
-- frp-backend/internal/http/handlers/tunnel.go: `SyncChmlFrp`. What the client of ChmlFrp lists for a
-- token is an argument.
pub mod Lost
use ashan_frp.Base.{
  ℕ, nat_beq, suc, String, Bool, false, ◌&&◌, not, Option, none, some, List, [], ◌∷◌,
}
use ashan_frp.Base.{◌==◌, string_eq, if◌then◌else◌}
use ashan_frp.Base.Int.{ℤ, pos, negsuc, is_positive}
use ashan_frp.Base.Atoi.{atoi}
use ashan_frp.Base.Result.{Result, ok, failed}
use ashan_frp.Base.Text.{trim_space, to_lower, after}
use ashan_frp.Domain.Tunnel.{Tunnel, zero_tunnel}
use ashan_frp.Domain.Job.{Job}
use ashan_frp.Domain.Account.{Account, AuditLog}
use ashan_frp.Domain.Credential.{UpstreamCredential, secret_token}
use ashan_frp.Domain.Remote.{
  ChmlFrpTunnel, get_name, get_type, get_local_ip, get_local_port, get_remote_port, get_domain,
}
use ashan_frp.Repository.{Table, Lookup, success}
use ashan_frp.Repository.Credentials.{find_credential_by_provider}
use ashan_frp.Repository.Tunnels.{find_tunnel_by_name}
use ashan_frp.Http.Request.{Request, Reply, without_body, with_body}
use ashan_frp.Http.Response.{respond, refuse}
use ashan_frp.Http.Tunnels.{audit}

abbrev is_zero : ℤ → Bool
is_zero (pos n) = nat_beq n 0
is_zero (negsuc n) = false

abbrev pub or_number : ℤ → String → ℤ
or_number port text = if is_zero port && not (text == "") then atoi text else port

-- `strings.TrimPrefix` of the prefix of the program's own tunnels.
unfoldable pub clean_name : String → String
unfolding after
clean_name name = elim (after "[ashan-frp]" name) [ none ↦ name | some rest ↦ rest ]

unfoldable pub listed_local_port : ChmlFrpTunnel → ℤ
unfolding get_local_port
listed_local_port t = or_number (get_local_port t) t.n_port

unfoldable pub listed_remote_port : ChmlFrpTunnel → ℤ
unfolding get_remote_port
listed_remote_port t = or_number (or_number (get_remote_port t) t.d_port) t.dorp

unfoldable pub listed_protocol : ChmlFrpTunnel → String
unfolding get_type
listed_protocol t =
    let protocol = to_lower (trim_space (get_type t)) in if protocol == "" then "tcp" else protocol

-- What a tunnel that is listed changes in its row.
unfoldable pub merged : ChmlFrpTunnel → Tunnel → Tunnel
unfolding listed_local_port listed_remote_port listed_protocol
merged r t = record t {
  chmlfrp_node = r.node;
  chmlfrp_tunnel_name = get_name r;
  local_ip = get_local_ip r;
  local_port = if is_positive (listed_local_port r) then listed_local_port r else t.local_port;
  remote_port = if is_positive (listed_remote_port r) then listed_remote_port r else t.remote_port;
  full_domain =
      if trim_space (get_domain r) == "" then t.full_domain else trim_space (get_domain r);
  protocol = listed_protocol r;
}

-- The row of a tunnel that is new.
unfoldable pub imported : String → String → ChmlFrpTunnel → Tunnel
unfolding clean_name listed_local_port listed_remote_port listed_protocol
imported id created_by r =
    let name = clean_name (get_name r) in
    record zero_tunnel {
      id = id;
      name = name;
      tunnel_type = listed_protocol r;
      project_name = name;
      subdomain = name;
      full_domain = trim_space (get_domain r);
      protocol = listed_protocol r;
      local_ip = get_local_ip r;
      local_port = listed_local_port r;
      remote_port = listed_remote_port r;
      desired_state = "enabled";
      chmlfrp_node = r.node;
      chmlfrp_tunnel_name = get_name r;
      actual_state = "running";
      state_reason = "Synced from ChmlFrp API";
      created_by = created_by;
    }

module _ {S : Type 0} (tunnels : Table S Tunnel) (jobs : Table S Job) (accounts : Table S Account)
    (audits : Table S AuditLog) (c : Request) where
  -- The pointer of the tunnel with the name decides.
  import_one : String → ChmlFrpTunnel → Option Tunnel → S → S
  unfolding merged imported
  import_one id r (some existing) s = (tunnels.save (merged r existing) s).0
  import_one id r none s = (tunnels.create (imported id c.account_id r) s).0

  -- The loop over the list, with the identifiers that are drawn: the database and the count.
  unfoldable pub import_all : (ℕ → String) → ℕ → List ChmlFrpTunnel → S → S × ℕ
  unfolding import_one find_tunnel_by_name clean_name
  import_all ids n [] s = (s, n)
  import_all ids n (r ∷ rs) s =
      let skipped = import_all ids n rs s in
      let next = import_all ids (suc n) rs (
        import_one (ids n) r (find_tunnel_by_name tunnels (clean_name (get_name r)) s).pointer s) in
      if trim_space (get_name r) == "" then skipped else next

  module _ (credentials : Table S UpstreamCredential) (decrypt : String → Option String)
      (password : String → Option String) (list : String → Result (List ChmlFrpTunnel)) where
    finish_import : S × ℕ → Reply S ℕ
    unfolding audit
    finish_import (s, n) =
        with_body (audit tunnels jobs accounts audits c "tunnel.sync_chmlfrp" "chmlfrp" "tunnels" s)
          (respond 200) n

    on_list : (ℕ → String) → Result (List ChmlFrpTunnel) → S → Reply S ℕ
    unfolding finish_import import_all
    on_list ids (failed e) s = without_body s (refuse 502 "CHMLFRP_API_ERROR")
    on_list ids (ok rs) s = finish_import (import_all ids 0 rs s)

    on_secret : (ℕ → String) → Option String → S → Reply S ℕ
    unfolding on_list secret_token
    on_secret ids none s = without_body s (refuse 500 "INTERNAL")
    on_secret ids (some secret) s =
        let token = secret_token decrypt password (some secret) in
        if token == ""
        then without_body s (refuse 401 "CHMLFRP_NOT_LOGGED_IN")
        else on_list ids (list token) s

    on_credential : (ℕ → String) → Option UpstreamCredential → S → Reply S ℕ
    unfolding on_secret
    on_credential ids none s = without_body s (refuse 400 "CHMLFRP_NOT_LOGGED_IN")
    on_credential ids (some cred) s =
        if cred.encrypted_secret == ""
        then without_body s (refuse 400 "CHMLFRP_NOT_LOGGED_IN")
        else on_secret ids (decrypt cred.encrypted_secret) s

    -- `SyncChmlFrp`.
    unfoldable pub sync_chmlfrp : (ℕ → String) → S → Reply S ℕ
    unfolding on_credential find_credential_by_provider
    sync_chmlfrp ids s =
        on_credential ids (success (find_credential_by_provider credentials "chmlfrp" s)) s
