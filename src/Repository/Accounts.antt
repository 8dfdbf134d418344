-- ===== src/Repository/Accounts.antt =====
-- frp-backend/internal/repository/repository.go: the queries on accounts and session tokens.
use ashan_frp.Base.{ℕ, String, Bool, Option, none, some, List, ltb, ◌||◌}
use ashan_frp.Base.{◌==◌, string_eq}
use ashan_frp.Domain.Account.{Account, zero_account, AuthToken, zero_token}
use ashan_frp.Repository.{Table, Lookup, or_zero}

module _ {S : Type 0} (T : Table S Account) where
  unfoldable pub find_account_by_login : String → S → Lookup Account
  find_account_by_login login s = or_zero zero_account (T.first (λ a. a.login_name == login) s)

  unfoldable pub find_account_by_id : String → S → Lookup Account
  find_account_by_id id s = or_zero zero_account (T.first (λ a. a.id == id) s)

module _ {S : Type 0} (T : Table S AuthToken) where
  unfoldable pub find_auth_token_by_hash : String → S → Lookup AuthToken
  find_auth_token_by_hash hash s = or_zero zero_token (T.first (λ t. t.token_hash == hash) s)

  unfoldable pub revoke_auth_token : ℕ → String → S → S × Bool
  revoke_auth_token now id s =
      T.update (λ t. t.id == id) (λ t. record t { revoked_at = some now }) s

  unfoldable pub touch_auth_token : ℕ → String → S → S × Bool
  touch_auth_token now id s =
      T.update (λ t. t.id == id) (λ t. record t { last_used_at = some now }) s

  unfoldable pub list_auth_tokens_by_account : String → S → Option (List AuthToken)
  list_auth_tokens_by_account account_id s =
      T.find (λ t. t.account_id == account_id) (λ a b. ltb b.created_at a.created_at) none s

abbrev pub is_admin_role : String → Bool
is_admin_role role = role == "admin" || role == "super_admin"

module _ {S : Type 0} (T : Table S Account) where
  -- `str_ltb` orders texts as the database does.
  unfoldable pub list_admin_accounts : (String → String → Bool) → S → Option (List Account)
  list_admin_accounts str_ltb s =
      T.find (λ a. is_admin_role a.role) (λ a b. str_ltb a.login_name b.login_name) none s
