-- ===== src/Http/Access.antt =====
-- frp-backend/internal/http/middleware/middleware.go: `AuthMiddleware`.
pub mod Admitted
use ashan_frp.Base.{ℕ, String, Bool, true, false, ◌||◌, Option, none, some}
use ashan_frp.Base.{◌==◌, string_eq, if◌then◌else◌}
use ashan_frp.Base.Text.{after}
use ashan_frp.Domain.Account.{Account, AuthToken, is_valid}
use ashan_frp.Repository.{Table, success}
use ashan_frp.Repository.Accounts.{find_account_by_id, find_auth_token_by_hash, touch_auth_token}

-- A request goes on, with the account that the middleware sets, or is answered by 401.
pub data Access : Type 0 where
  admitted : Option Account → Access
  unauthorized : Access

abbrev pub is_public : String → Bool
is_public path =
    path == "/api/v1/health" || path == "/api/v1/version" || path == "/api/v1/auth/login"

-- `len(h) > 7 && h[:7] == "Bearer "` and `h[7:]`.
unfoldable pub bearer_of : Option String → Option String
bearer_of none = none
bearer_of (some token) = if token == "" then none else some token

unfoldable pub bearer : String → Option String
unfolding bearer_of
bearer header = bearer_of (after "Bearer " header)

module _ {S : Type 0} (accounts : Table S Account) (tokens : Table S AuthToken)
    (hash_token : String → String) where
  -- A token that is looked up; none is an error. The account is set whenever the pointer that
  -- `FindAccountByID` returns is not nil; `used` is the time that the token is touched.
  unfoldable pub admit : ℕ → ℕ → Option AuthToken → S → S × Access
  unfolding is_valid touch_auth_token find_account_by_id
  admit now used none s = (s, unauthorized)
  admit now used (some t) s =
      let touched = (touch_auth_token tokens used t.id s).0 in
      if is_valid now t
      then (touched, admitted (find_account_by_id accounts t.account_id touched).pointer)
      else (s, unauthorized)

  unfoldable pub admit_secret : ℕ → ℕ → String → S → S × Access
  unfolding admit find_auth_token_by_hash
  admit_secret now used secret s =
      admit now used (success (find_auth_token_by_hash tokens (hash_token secret) s)) s

  -- With a bearer token the cookie is not read.
  unfoldable pub by_header : ℕ → ℕ → Option String → String → S → S × Access
  unfolding admit_secret
  by_header now used (some secret) cookie s = admit_secret now used secret s
  by_header now used none cookie s =
      if cookie == "" then (s, unauthorized) else admit_secret now used cookie s

  -- The middleware, for the path, the header and the cookie of a request, "" if it has none.
  unfoldable pub auth_middleware : ℕ → ℕ → String → String → String → S → S × Access
  unfolding by_header bearer
  auth_middleware now used path header cookie s =
      if is_public path then (s, admitted none) else by_header now used (bearer header) cookie s
