-- ===== src/Http/Access/Admitted.antt =====
-- Whom the middleware lets through.
use ashan_frp.Base.{ℕ, ◌≡◌, refl, String, true, false, Option, none, some, ◌⊎◌, eq_iff}
use ashan_frp.Base.{◌==◌, string_eq, Bool-cases, inl, inr}
use ashan_frp.Domain.Account.{Account, AuthToken, zero_account, zero_token, is_valid}
use ashan_frp.Repository.{Table, IsTable, success, success-or_zero}
use ashan_frp.Repository.Accounts.{find_auth_token_by_hash, find_account_by_id, touch_auth_token}
use ashan_frp.Http.Access.{
  admitted, is_public, bearer, admit, admit_secret, by_header, auth_middleware,
}

module _ {S : Type 0} (accounts : Table S Account) (tokens : Table S AuthToken)
    (stamp : ℕ → ℕ → AuthToken → AuthToken) (law : IsTable tokens (λ t. t.id) stamp)
    (hash_token : String → String) (now used : ℕ) where
  -- The database holds a token of the secret that has neither expired nor been revoked.
  abbrev pub IsKnown : String → S → Type 0
  IsKnown secret s =
      (t : AuthToken) × (tokens.row t.id s ≡ some t)
      × (t.token_hash ≡ hash_token secret)
      × (is_valid now t ≡ true)

  admit-is_valid :
      (o : Option AuthToken) (s : S) (a : Option Account)
      → (admit accounts tokens hash_token now used o s).1 ≡ admitted a
      → (t : AuthToken) × (o ≡ some t) × (is_valid now t ≡ true)
  unfolding admit
  admit-is_valid none s a e = cc
  admit-is_valid (some t) s a e = elim (Bool-cases (is_valid now t)) [
    | inl valid ↦ (t, refl, valid)
    | inr invalid ↦ absurd (cc (rw invalid at e))
  ]

  admit_secret-IsKnown :
      (secret : String) (s : S) (a : Option Account)
      → (admit_secret accounts tokens hash_token now used secret s).1 ≡ admitted a
      → IsKnown secret s
  unfolding admit_secret find_auth_token_by_hash
  admit_secret-IsKnown secret s a e =
      let (t, here, valid) = admit-is_valid _ s a e in
      let sound = law.first_sound _ s t (success-or_zero zero_token t _ here) in
      (t, sound.1, (eq_iff t.token_hash (hash_token secret)).0 sound.0, valid)

  abbrev pub Presents : Option String → String → S → Type 0
  Presents header cookie s =
      ((secret : String) × (header ≡ some secret) × IsKnown secret s)
      ⊎ (header ≡ none) × IsKnown cookie s

  by_header-Presents :
      (header : Option String) (cookie : String) (s : S) (a : Option Account)
      → (by_header accounts tokens hash_token now used header cookie s).1 ≡ admitted a
      → Presents header cookie s
  unfolding by_header
  by_header-Presents (some secret) cookie s a e =
      inl (secret, refl, admit_secret-IsKnown secret s a e)
  by_header-Presents none cookie s a e = elim (Bool-cases (cookie == "")) [
    | inl empty ↦ absurd (cc (rw empty at e))
    | inr full ↦ inr (refl, admit_secret-IsKnown cookie s a (rw full at e))
  ]

  -- A request to a path that is not public goes on only with a known secret: that of the bearer
  -- header or, without such a header, that of the cookie.
  pub auth_middleware-IsKnown :
      (path header cookie : String) (s : S) (a : Option Account)
      → is_public path ≡ false
      → (auth_middleware accounts tokens hash_token now used path header cookie s).1 ≡ admitted a
      → Presents (bearer header) cookie s
  unfolding auth_middleware
  auth_middleware-IsKnown path header cookie s a closed e =
      by_header-Presents (bearer header) cookie s a (rw closed at e)

  -- A valid token opens every path also where its account is not found, as after a deletion: the
  -- request then goes on with the zero account.
  pub admit_secret-zero_account :
      (secret : String) (s : S) (t : AuthToken)
      → success (find_auth_token_by_hash tokens (hash_token secret) s) ≡ some t
      → is_valid now t ≡ true
      → accounts.first (λ a. a.id == t.account_id) (touch_auth_token tokens used t.id s).0 ≡ none
      → (admit_secret accounts tokens hash_token now used secret s).1 ≡ admitted (some zero_account)
  unfolding admit_secret admit find_account_by_id
  admit_secret-zero_account secret s t here valid missing = rw (here, valid, missing) refl
