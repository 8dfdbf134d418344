-- ===== src/Http/Auth/Logout.antt =====
-- After a logout the session is over, for the handlers and for the middleware.
use mathlib.Core.Path.{subst}
use ashan_frp.Base.{
  ℕ, ◌≡◌, ◌≢◌, refl, sym, ap, ◌∙◌, String, true, false, Option, none, some, ◌⊎◌, arith, eq_iff,
}
use ashan_frp.Base.{◌==◌, string_eq, Bool-cases, inl, inr}
use ashan_frp.Base.Text.{after}
use ashan_frp.Domain.Account.{
  Account, AuthToken, zero_token, AuditLog, is_valid, is_revoked, is_expired,
}
use ashan_frp.Repository.{Table, IsTable, success, success-or_zero}
use ashan_frp.Repository.Accounts.{find_auth_token_by_hash, revoke_auth_token}
use ashan_frp.Http.Request.{Request}
use ashan_frp.Http.Auth.{Hashes, end_session, logout, session, session_of}
use ashan_frp.Http.Access.{
  unauthorized, admit, admit_secret, by_header, auth_middleware, is_public, bearer, bearer_of,
}

-- The database gives a token that is written its time of creation.
abbrev pub stamp_token : ℕ → ℕ → AuthToken → AuthToken
stamp_token created updated t = record t { created_at = created }

-- No two tokens have the same hash.
abbrev pub IsUnique : {S : Type 0} → Table S AuthToken → S → Type 0
IsUnique tokens s =
    (q r : AuthToken)
    → tokens.row q.id s ≡ some q
    → tokens.row r.id s ≡ some r
    → q.token_hash ≡ r.token_hash
    → q.id ≡ r.id

ne_empty : (s : String) → s ≢ "" → (s == "") ≡ false
ne_empty s h = ground (h, arith, eq_iff s "")

module _ {S : Type 0} (accounts : Table S Account) (tokens : Table S AuthToken)
    (audits : Table S AuditLog) (law : IsTable tokens (λ t. t.id) stamp_token)
    (apart : (l : AuditLog) (s : S) (k : String)
      → tokens.row k (audits.create l s).0 ≡ tokens.row k s)
    (hashes : Hashes) (c : Request) where
  revoked_case :
      (now : ℕ) (id : String) (s : S) (r q : AuthToken)
      → tokens.row r.id s ≡ some q
      → ((q.id == id) ≡ true)
          × ((c : ℕ) × (u : ℕ) × (r ≡ stamp_token c u (record q { revoked_at = some now })))
        ⊎ ((q.id == id) ≡ false) × (r ≡ q)
      → (is_revoked r ≡ true) ⊎ (r.id ≢ id) × (tokens.row r.id s ≡ some r)
  unfolding is_revoked
  revoked_case now id s r q at (inl (hit, (c, u, e))) =
      inl (subst (λ x. is_revoked x ≡ true) (sym e) refl)
  revoked_case now id s r q at (inr (miss, e)) =
      inr (λ same. ground (miss, arith, eq_iff q.id id, ap (λ x. x.id) e), at ∙ ap some (sym e))

  -- A token that is there after a revocation is revoked, or is another one that was there before.
  revoke-row :
      (now : ℕ) (id : String) (s : S) (r : AuthToken)
      → (revoke_auth_token tokens now id s).1 ≡ true
      → tokens.row r.id (revoke_auth_token tokens now id s).0 ≡ some r
      → (is_revoked r ≡ true) ⊎ (r.id ≢ id) × (tokens.row r.id s ≡ some r)
  unfolding revoke_auth_token
  revoke-row now id s r done e =
      let (q, at, cases) = law.update_stored _ _ s r.id r (λ q. refl) done e in
      revoked_case now id s r q at cases

  abbrev pub found : String → S → Option AuthToken
  found cookie s = tokens.first (λ t. t.token_hash == hashes.hash_token cookie) s

  end_session-revoke :
      (now : ℕ) (cookie : String) (s : S) (t : AuthToken)
      → cookie ≢ ""
      → found cookie s ≡ some t
      → end_session accounts tokens audits hashes c now cookie s
        ≡ (revoke_auth_token tokens now t.id s).0
  unfolding end_session find_auth_token_by_hash
  end_session-revoke now cookie s t given here = elim (Bool-cases (cookie == "")) [
    | inl e ↦ absurd (given ((eq_iff cookie "").0 e))
    | inr e ↦ rw (e, here) refl
  ]

  -- What a later look for the token of the cookie can find is revoked.
  revoked_after :
      (now : ℕ) (cookie : String) (s : S) (t r : AuthToken)
      → found cookie s ≡ some t
      → IsUnique tokens s
      → (is_revoked r ≡ true) ⊎ (r.id ≢ t.id) × (tokens.row r.id s ≡ some r)
      → (r.token_hash == hashes.hash_token cookie) ≡ true
      → is_revoked r ≡ true
  revoked_after now cookie s t r here unique (inl e) hash = e
  revoked_after now cookie s t r here unique (inr (other, at)) hash =
      let sound = law.first_sound _ s t here in
      absurd (
        other (
          unique r t at sound.1 (
            (eq_iff r.token_hash (hashes.hash_token cookie)).0 hash
            ∙ sym ((eq_iff t.token_hash (hashes.hash_token cookie)).0 sound.0))))

  logout-is_revoked :
      (now : ℕ) (cookie : String) (s : S) (t r : AuthToken)
      → cookie ≢ ""
      → found cookie s ≡ some t
      → IsUnique tokens s
      → (revoke_auth_token tokens now t.id s).1 ≡ true
      → found cookie (logout accounts tokens audits hashes c now cookie s).db ≡ some r
      → is_revoked r ≡ true
  unfolding logout
  logout-is_revoked now cookie s t r given here unique done e =
      let sound = law.first_sound _ _ r e in
      revoked_after now cookie s t r here unique
        (revoke-row now t.id s r done (
          ap (tokens.row r.id) (sym (end_session-revoke now cookie s t given here))
          ∙ sym (apart _ _ r.id)
          ∙ sound.1))
        sound.0

  is_revoked-is_valid : (now : ℕ) (r : AuthToken) → is_revoked r ≡ true → is_valid now r ≡ false
  unfolding is_valid is_revoked is_expired
  is_revoked-is_valid now r h = ground arith

  admit-revoked :
      (now used : ℕ) (o : Option AuthToken) (s : S)
      → ((r : AuthToken) → o ≡ some r → is_revoked r ≡ true)
      → admit accounts tokens hashes.hash_token now used o s ≡ (s, unauthorized)
  unfolding admit
  admit-revoked now used none s revoked = refl
  admit-revoked now used (some r) s revoked = rw (is_revoked-is_valid now r (revoked r refl)) refl

  session_of-revoked :
      (now used : ℕ) (o : Option AuthToken) (s : S)
      → ((r : AuthToken) → o ≡ some r → is_revoked r ≡ true)
      → (session_of accounts tokens audits hashes c now used o s).body ≡ none
  unfolding session_of
  session_of-revoked now used none s revoked = refl
  session_of-revoked now used (some r) s revoked =
      rw (is_revoked-is_valid now r (revoked r refl)) refl

  auth_middleware-cookie :
      (now used : ℕ) (cookie path : String) (s : S)
      → (cookie == "") ≡ false
      → is_public path ≡ false
      → auth_middleware accounts tokens hashes.hash_token now used path "" cookie s
        ≡ admit_secret accounts tokens hashes.hash_token now used cookie s
  unfolding auth_middleware by_header bearer bearer_of after
  auth_middleware-cookie now used cookie path s full closed = rw (closed, full) refl

  session-cookie :
      (now used : ℕ) (cookie : String) (s : S)
      → (cookie == "") ≡ false
      → session accounts tokens audits hashes c now used cookie s
        ≡ session_of accounts tokens audits hashes c now used
            (success (find_auth_token_by_hash tokens (hashes.hash_token cookie) s))
            s
  unfolding session
  session-cookie now used cookie s full = rw full refl

  -- Once a logout has revoked the token of its cookie, and until the database changes again, the
  -- cookie opens no path that is not public, and `Session` reports no account for it. The
  -- assumptions are that no two tokens have the same hash, and that an audit entry leaves the tokens
  -- alone.
  pub logout-unauthorized :
      (at now used : ℕ) (cookie path : String) (s : S) (t : AuthToken)
      → cookie ≢ ""
      → is_public path ≡ false
      → found cookie s ≡ some t
      → IsUnique tokens s
      → (revoke_auth_token tokens at t.id s).1 ≡ true
      → let s' = (logout accounts tokens audits hashes c at cookie s).db in
        (auth_middleware accounts tokens hashes.hash_token now used path "" cookie s'
          ≡ (s', unauthorized))
        × ((session accounts tokens audits hashes c now used cookie s').body ≡ none)
  unfolding admit_secret find_auth_token_by_hash
  logout-unauthorized at now used cookie path s t given closed here unique done =
      let s' = (logout accounts tokens audits hashes c at cookie s).db in
      let revoked : (r : AuthToken)
          → success (find_auth_token_by_hash tokens (hashes.hash_token cookie) s') ≡ some r
          → is_revoked r ≡ true =
        λ r e.
          logout-is_revoked at cookie s t r given here unique done
            (success-or_zero zero_token r (found cookie s') e) in
      let full = ne_empty cookie given in
      (
        auth_middleware-cookie now used cookie path s' full closed
            ∙ admit-revoked now used _ s' revoked,
        ap (λ x. x.body) (session-cookie now used cookie s' full)
            ∙ session_of-revoked now used _ s' revoked,
      )
