-- ===== src/Chmlfrp.antt =====
-- frp-backend/internal/integration/chmlfrp/client.go and helpers.go: how the client of ChmlFrp reads
-- an answer, lists, creates and deletes tunnels. HTTP and JSON are parameters. A client that has no
-- token logs in first; here it has one.
pub mod Created
use ashan_frp.Base.{
  ℕ, zero, suc, String, ◌<>◌, Bool, true, false, not, ◌&&◌, ◌||◌, Option, none, some, List, [], ◌∷◌,
}
use ashan_frp.Base.{◌==◌, string_eq, if◌then◌else◌}
use ashan_frp.Base.Int.{ℤ, pos, lebℤ}
use ashan_frp.Base.Result.{Result, ok, failed}
use ashan_frp.Base.Text.{trim_space, to_lower, contains, after}

-- The fields of a JSON object that tell a failure, where they have the type that is expected.
pub record Generic : Type 0 where
  pub success : Option Bool
  pub code : Option ℤ
  pub state : Option String

unfoldable pub starts : String → String → Bool
unfolding after
starts p s = elim (after p s) [ none ↦ false | some rest ↦ true ]

abbrev pub is_false : Option Bool → Bool
is_false none = false
is_false (some b) = not b

abbrev pub is_other_code : Option ℤ → Bool
is_other_code none = false
is_other_code (some n) = not (lebℤ (pos 200) n && lebℤ n (pos 200))

-- `strings.EqualFold` with "error", for which lower case is enough.
unfoldable pub is_error_state : Option String → Bool
is_error_state none = false
is_error_state (some s) = to_lower (trim_space s) == "error"

unfoldable pub object_failed : Option Generic → Bool
unfolding is_error_state
object_failed none = false
object_failed (some g) = is_false g.success || is_other_code g.code || is_error_state g.state

-- `bodySignalsFailure`; `decode` is the JSON object of a body.
unfoldable pub body_signals_failure : (String → Option Generic) → String → Bool
unfolding object_failed starts
body_signals_failure decode body =
    let trimmed = trim_space body in
    let lower = to_lower trimmed in
    if trimmed == ""
    then false
    else if contains lower "error" || contains lower "fail" || contains lower "already"
    then true
    else if not (starts "{" trimmed) && not (starts "[" trimmed)
    then false
    else object_failed (decode body)

pub record RemoteTunnel : Type 0 where
  pub id : String
  pub name : String

-- What a request comes to: no answer that can be read, or its body.
pub data Body : Type 0 where
  unread : String → Body
  body : String → Body

-- ChmlFrp, over what it keeps, `Z`: a tunnel is created by its name, deleted by its identifier, and
-- listed, each by the new API and by the old one. A list of the new API is none where nothing or an
-- empty list is read.
pub record Remote (Z : Type 0) : Type 0 where
  pub create_v2 : String → Z → Z × Body
  pub create_v1 : String → Z → Z × Body
  pub delete_v2 : String → Z → Z × Body
  pub delete_v1 : String → Z → Z × Body
  pub tunnels_v2 : Z → Option (List RemoteTunnel)
  pub tunnels_v1 : Z → Result (List RemoteTunnel)
  pub decode : String → Option Generic

-- The identifier of the tunnel with this name, or else the name.
unfoldable pub find_id : String → List RemoteTunnel → String
find_id name [] = name
find_id name (t ∷ ts) = let rest = find_id name ts in if t.name == name then t.id else rest

-- What one attempt ends with: a tunnel, or the error with which the loop goes on.
pub data Attempt : Type 0 where
  made : String → Attempt
  retry : String → Attempt

module _ {Z : Type 0} (remote : Remote Z) where
  -- `GetTunnels`.
  unfoldable pub get_tunnels : Z → Result (List RemoteTunnel)
  get_tunnels z = elim (remote.tunnels_v2 z) [ none ↦ remote.tunnels_v1 z | some ts ↦ ok ts ]

  unfoldable pub looked_up : String → String → Result (List RemoteTunnel) → Attempt
  looked_up api name (failed e) = retry ("chmlfrp lookup tunnels " <> (api <> (": " <> e)))
  looked_up api name (ok ts) = made (find_id name ts)

  -- The request to the old API.
  unfoldable pub after_v1 : String → Z × Body → Z × Attempt
  unfolding looked_up get_tunnels
  after_v1 name (z, unread e) = (z, retry e)
  after_v1 name (z, body b) =
      if body_signals_failure remote.decode b
      then (z, retry ("chmlfrp create tunnel v1 rejected: " <> trim_space b))
      else (z, looked_up "v1" name (get_tunnels z))

  -- The request to the new API, and the old one where it is not taken.
  unfoldable pub after_v2 : String → Z × Body → Z × Attempt
  unfolding after_v1
  after_v2 name (z, unread e) = after_v1 name (remote.create_v1 name z)
  after_v2 name (z, body b) =
      if body_signals_failure remote.decode b
      then after_v1 name (remote.create_v1 name z)
      else (z, looked_up "v2" name (get_tunnels z))

  unfoldable pub attempt : String → Z → Z × Attempt
  unfolding after_v2
  attempt name z = after_v2 name (remote.create_v2 name z)

  -- The name of an attempt: from the second on it has a suffix that is drawn.
  abbrev pub attempt_name : String → (ℕ → String) → ℕ → String
  attempt_name name suffix zero = name
  attempt_name name suffix (suc n) = name <> ("-" <> suffix (suc n))

  unfoldable pub go_on : (Z → String → Z × Result String) → Z × Attempt → Z × Result String
  go_on next (z, made id) = (z, ok id)
  go_on next (z, retry e) = next z e

  -- The attempts that are left, from one on, after the error of the last.
  unfoldable pub attempts : String → (ℕ → String) → ℕ → ℕ → Z → String → Z × Result String
  unfolding go_on attempt
  attempts name suffix zero n z last =
      (z, failed ("chmlfrp create failed after 3 retries: " <> last))
  attempts name suffix (suc left) n z last =
      go_on (λ z' e. attempts name suffix left (suc n) z' e)
        (attempt (attempt_name name suffix n) z)

  abbrev pub prefixed : String → Bool → String
  prefixed name b = if b then name else "[ashan-frp]" <> name

  -- `CreateTunnel`: three attempts.
  unfoldable pub create_remote_tunnel : String → (ℕ → String) → Z → Z × Result String
  unfolding attempts starts
  create_remote_tunnel tunnel_name suffix z =
      attempts (prefixed tunnel_name (starts "[ashan-frp]" tunnel_name)) suffix 3 0 z ""

  -- The tunnel is not there, or not of this user: taken for a success.
  abbrev pub says_gone : String → Bool
  says_gone b = contains b "不存在" || contains b "不属于"

  unfoldable pub deleted_v1 : Z × Body → Z × Result Unit
  deleted_v1 (z, unread e) = (z, failed e)
  deleted_v1 (z, body b) =
      let bare = trim_space b in
      if body_signals_failure remote.decode b && not (says_gone bare)
      then (z, failed ("chmlfrp delete tunnel failed: " <> bare))
      else (z, ok tt)

  unfoldable pub deleted_v2 : String → Z × Body → Z × Result Unit
  unfolding deleted_v1
  deleted_v2 id (z, unread e) = deleted_v1 (remote.delete_v1 id z)
  deleted_v2 id (z, body b) =
      if not (body_signals_failure remote.decode b) || says_gone (trim_space b)
      then (z, ok tt)
      else deleted_v1 (remote.delete_v1 id z)

  -- `DeleteTunnel`.
  unfoldable pub delete_remote_tunnel : String → Z → Z × Result Unit
  unfolding deleted_v2
  delete_remote_tunnel id z = deleted_v2 id (remote.delete_v2 id z)
