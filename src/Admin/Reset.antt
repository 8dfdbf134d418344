-- ===== src/Admin/Reset.antt =====
-- What a reset of the administrator leaves in the database.
use Prim.Native.String.{len}
use mathlib.Core.Path.{subst}
use ashan_frp.Base.{
  ℕ, ltb, nat_beq, String, ◌≡◌, refl, sym, ap, ◌∙◌, Bool, true, false, ◌⊎◌, inl, inr, Option, none,
  some, List, [], ◌∷◌, All, Bool-cases, eq_iff, some_inj, arith,
}
use ashan_frp.Base.{◌==◌, string_eq}
use ashan_frp.Base.Result.{Result, ok, failed}
use ashan_frp.Domain.Account.{Account, AuthToken, AuditLog, is_revoked}
use ashan_frp.Repository.{Table, IsTable, IsApart}
use ashan_frp.Repository.Accounts.{list_admin_accounts, is_admin_role}
use ashan_frp.Http.Auth.Logout.{stamp_token}
use ashan_frp.Repository.Transactions.{finish, transaction}
use ashan_frp.Admin.{
  AccountCredentialReset, ResetRequest, ResetResult, validate_username, only_admin, reset_account,
  is_open, reset_entry, after_audit, after_revoke, after_update, reset_rows,
  reset_admin_credentials, report, with_hash, with_admin, with_username, reset_password,
}

-- The database gives an account that is written its times.
abbrev pub stamp_account : ℕ → ℕ → Account → Account
stamp_account created updated a = record a { created_at = created; updated_at = updated }

module _ {S : Type 0} (accounts : Table S Account) (tokens : Table S AuthToken)
    (audits : Table S AuditLog) where
  -- An account as it was but for the new name and password, and open.
  abbrev pub IsPatched : AccountCredentialReset → Account → Account → Type 0
  IsPatched i a b =
      (b.role ≡ a.role)
      × (b.login_name ≡ i.login_name)
      × (b.password_hash ≡ i.password_hash)
      × (b.must_change_pwd ≡ false)
      × (b.failed_attempts ≡ 0)
      × (b.locked_until ≡ none)

  -- The row of this account, an administrator's, before and after.
  abbrev pub IsRenewed : AccountCredentialReset → S → S → Type 0
  IsRenewed i s s' =
      (a : Account) × (b : Account) × IsPatched i a b
      × (is_admin_role a.role ≡ true)
      × (accounts.row i.account_id s ≡ some a)
      × (accounts.row i.account_id s' ≡ some b)

  -- Every token of the account is revoked.
  abbrev pub IsClosed : String → S → Type 0
  IsClosed account_id s =
      (k : String) (t : AuthToken)
      → tokens.row k s ≡ some t
      → t.account_id ≡ account_id
      → is_revoked t ≡ true

  -- An account is the one with this identifier, or as it was.
  abbrev pub IsOnly : String → S → S → Type 0
  IsOnly account_id s s' =
      (k : String) (b : Account)
      → accounts.row k s' ≡ some b
      → (b.id ≡ account_id) ⊎ (accounts.row k s ≡ some b)

  abbrev IsWritten : AccountCredentialReset → S → S × Result ℕ → Type 0
  IsWritten i s (s', failed e) = Unit {0}
  IsWritten i s (s', ok n) = IsRenewed i s s' × IsClosed i.account_id s' × IsOnly i.account_id s s'

  -- The outcome of a reset: an error and the database as it was, or all that a reset means to do.
  abbrev pub IsReset : (String → Option String) → ResetRequest → S → S × Result ResetResult → Type 0
  IsReset hash_password request s (s', failed e) = s' ≡ s
  IsReset hash_password request s (s', ok r) =
      (hash : String) × (hash_password request.new_password ≡ some hash)
      × (validate_username request.new_username ≡ ok r.login_name)
      × IsRenewed
          (record { account_id = r.account_id; login_name = r.login_name; password_hash = hash }) s
          s'
      × IsClosed r.account_id s'
      × IsOnly r.account_id s s'

  module _ (law : IsTable accounts (λ a. a.id) stamp_account)
      (token_law : IsTable tokens (λ t. t.id) stamp_token) (apart : IsApart tokens accounts)
      (audits_apart : IsApart audits accounts) (audits_apart_tokens : IsApart audits tokens) where
    renewed_case :
        (i : AccountCredentialReset) (a q b : Account)
        → a ≡ q
        → a.id ≡ i.account_id
        → ((q.id == i.account_id) ≡ true)
            × ((c : ℕ) × (u : ℕ) × (b ≡ stamp_account c u (reset_account i q)))
          ⊎ ((q.id == i.account_id) ≡ false) × (b ≡ q)
        → (c : ℕ) × (u : ℕ) × (b ≡ stamp_account c u (reset_account i a))
    renewed_case i a q b same id (inl (hit, (c, u, e))) =
        (c, u, e ∙ ap (λ x. stamp_account c u (reset_account i x)) (sym same))
    renewed_case i a q b same id (inr (miss, e)) =
        absurd (ground (miss, arith, eq_iff q.id i.account_id, id, ap (λ (x : Account). x.id) same))

    only_case :
        (i : AccountCredentialReset) (s : S) (k : String) (q b : Account)
        → accounts.row k s ≡ some q
        → ((q.id == i.account_id) ≡ true)
            × ((c : ℕ) × (u : ℕ) × (b ≡ stamp_account c u (reset_account i q)))
          ⊎ ((q.id == i.account_id) ≡ false) × (b ≡ q)
        → (b.id ≡ i.account_id) ⊎ (accounts.row k s ≡ some b)
    unfolding reset_account
    only_case i s k q b at (inl (hit, (c, u, e))) =
        inl (ap (λ x. x.id) e ∙ (eq_iff q.id i.account_id).0 hit)
    only_case i s k q b at (inr (miss, e)) = inr (at ∙ ap some (sym e))

    closed_case :
        (now : ℕ) (id : String) (q t : AuthToken)
        → t.account_id ≡ id
        → (is_open id q ≡ true)
            × ((c : ℕ) × (u : ℕ) × (t ≡ stamp_token c u (record q { revoked_at = some now })))
          ⊎ (is_open id q ≡ false) × (t ≡ q)
        → is_revoked t ≡ true
    unfolding is_open is_revoked
    closed_case now id q t own (inl (hit, (c, u, e))) =
        subst (λ x. is_revoked x ≡ true) (sym e) refl
    closed_case now id q t own (inr (miss, e)) =
        subst (λ x. is_revoked x ≡ true) (sym e)
          (ground
            (miss, arith, eq_iff q.account_id id, ap (λ (x : AuthToken). x.account_id) e, own))

    audit-IsWritten :
        (i : AccountCredentialReset) (s s2 : S) (n : ℕ) (r : S × Bool)
        → IsRenewed i s s2
        → IsClosed i.account_id s2
        → IsOnly i.account_id s s2
        → audits.create (reset_entry i n) s2 ≡ r
        → IsWritten i s (after_audit accounts tokens audits n r)
    unfolding after_audit
    audit-IsWritten i s s2 n (s3, false) renewed closed only e = tt
    audit-IsWritten i s s2 n (s3, true) (a, b, patched, role, at, at2) closed only e =
        let rows : (k : String) → accounts.row k s3 ≡ accounts.row k s2 = λ k.
          ap (λ x. accounts.row k x.0) (sym e) ∙ audits_apart.create_apart (reset_entry i n) s2 k in
        let token_rows : (k : String) → tokens.row k s3 ≡ tokens.row k s2 = λ k.
          ap (λ x. tokens.row k x.0) (sym e)
          ∙ audits_apart_tokens.create_apart (reset_entry i n) s2 k in
        (
          (a, b, patched, role, at, rows i.account_id ∙ at2),
          λ k t here. closed k t (sym (token_rows k) ∙ here),
          λ k c here. only k c (sym (rows k) ∙ here),
        )

    revoke-IsWritten :
        (now : ℕ) (i : AccountCredentialReset) (s s1 : S) (r : S × Bool)
        → IsRenewed i s s1
        → IsOnly i.account_id s s1
        → tokens.update (is_open i.account_id) (λ t. record t { revoked_at = some now }) s1 ≡ r
        → IsWritten i s (after_revoke accounts tokens audits i s1 r)
    unfolding after_revoke
    revoke-IsWritten now i s s1 (s2, false) renewed only e = tt
    revoke-IsWritten now i s s1 (s2, true) (a, b, patched, role, at, at1) only e =
        let revoke : AuthToken → AuthToken = λ t. record t { revoked_at = some now } in
        let rows : (k : String) → accounts.row k s2 ≡ accounts.row k s1 = λ k.
          ap (λ x. accounts.row k x.0) (sym e)
          ∙ apart.update_apart (is_open i.account_id) revoke s1 k in
        audit-IsWritten i s s2 (tokens.affected (is_open i.account_id) s1) _
          (a, b, patched, role, at, rows i.account_id ∙ at1)
          (λ k t here own.
            let (q, before, cases) =
              token_law.update_stored (is_open i.account_id) revoke s1 k t (λ x. refl)
                (ap (λ x. x.1) e) (ap (λ x. tokens.row k x.0) e ∙ here) in
            closed_case now i.account_id q t own cases)
          (λ k c here. only k c (sym (rows k) ∙ here)) refl

    update-IsRenewed :
        (i : AccountCredentialReset) (s s1 : S) (a : Account)
        → accounts.row i.account_id s ≡ some a
        → a.id ≡ i.account_id
        → is_admin_role a.role ≡ true
        → accounts.update (λ a. a.id == i.account_id) (reset_account i) s ≡ (s1, true)
        → IsRenewed i s s1
    unfolding reset_account
    update-IsRenewed i s s1 a at id role e =
        let here : Account → Bool = λ a. a.id == i.account_id in
        let (b, found) =
          law.update_found here (reset_account i) s i.account_id a (λ q. refl) (ap (λ x. x.1) e)
            at in
        let (q, before, cases) =
          law.update_stored here (reset_account i) s i.account_id b (λ q. refl) (ap (λ x. x.1) e)
            found in
        let (c, u, new) = renewed_case i a q b (some_inj (sym at ∙ before)) id cases in
        (
          a,
          b,
          (
            ap (λ x. x.role) new,
            ap (λ x. x.login_name) new,
            ap (λ x. x.password_hash) new,
            ap (λ x. x.must_change_pwd) new,
            ap (λ x. x.failed_attempts) new,
            ap (λ x. x.locked_until) new,
          ),
          role,
          at,
          ap (λ x. accounts.row i.account_id x.0) (sym e) ∙ found,
        )

    update-IsOnly :
        (i : AccountCredentialReset) (s s1 : S)
        → accounts.update (λ a. a.id == i.account_id) (reset_account i) s ≡ (s1, true)
        → IsOnly i.account_id s s1
    unfolding reset_account
    update-IsOnly i s s1 e k b here =
        let (q, before, cases) =
          law.update_stored (λ a. a.id == i.account_id) (reset_account i) s k b (λ q. refl)
            (ap (λ x. x.1) e) (ap (λ x. accounts.row k x.0) e ∙ here) in
        only_case i s k q b before cases

    after_update-IsWritten :
        (now : ℕ) (i : AccountCredentialReset) (s : S) (a : Account) (r : S × Bool)
        → accounts.row i.account_id s ≡ some a
        → a.id ≡ i.account_id
        → is_admin_role a.role ≡ true
        → accounts.update (λ a. a.id == i.account_id) (reset_account i) s ≡ r
        → IsWritten i s (after_update accounts tokens audits now i s r)
    unfolding after_update
    after_update-IsWritten now i s a (s1, false) at id role e = tt
    after_update-IsWritten now i s a (s1, true) at id role e =
        elim (Bool-cases (nat_beq (accounts.affected (λ a. a.id == i.account_id) s) 1)) [
          | inr none_changed ↦ rw none_changed tt
          | inl one ↦ rw one (
              revoke-IsWritten now i s s1 _ (update-IsRenewed i s s1 a at id role e)
                (update-IsOnly i s s1 e) refl)
        ]

    module _ (commit : S → Bool) (hash_password : String → Option String)
        (str_ltb : String → String → Bool) where
      report-IsReset :
          (request : ResetRequest) (i : AccountCredentialReset) (s : S) (r : S × Result ℕ)
          → hash_password request.new_password ≡ some i.password_hash
          → validate_username request.new_username ≡ ok i.login_name
          → IsWritten i s r
          → IsReset hash_password request s
              (report accounts tokens audits commit hash_password str_ltb i (finish commit s r))
      unfolding finish report
      report-IsReset request i s (s', failed e) hash name h = refl
      report-IsReset request i s (s', ok n) hash name h = elim (Bool-cases (commit s')) [
        | inl done ↦ rw done (i.password_hash, hash, name, h.0, h.1, h.2)
        | inr undone ↦ rw undone refl
      ]

      with_hash-IsReset :
          (now : ℕ) (request : ResetRequest) (username : String) (s : S) (a : Account)
          (o : Option String)
          → hash_password request.new_password ≡ o
          → validate_username request.new_username ≡ ok username
          → accounts.row a.id s ≡ some a
          → is_admin_role a.role ≡ true
          → IsReset hash_password request s
              (with_hash accounts tokens audits commit hash_password str_ltb now username a o s)
      unfolding with_hash reset_admin_credentials reset_rows transaction
      with_hash-IsReset now request username s a none hash name at role = refl
      with_hash-IsReset now request username s a (some h) hash name at role =
          let i : AccountCredentialReset = record {
            account_id = a.id;
            login_name = username;
            password_hash = h;
          } in
          report-IsReset request i s _ hash name
            (after_update-IsWritten now i s a _ at refl role refl)

      with_admin-IsReset :
          (now : ℕ) (request : ResetRequest) (username : String) (s : S) (o : Option (List Account))
          → validate_username request.new_username ≡ ok username
          → ((as1 : List Account)
              → o ≡ some as1
              → All (λ a. (is_admin_role a.role ≡ true) × (accounts.row a.id s ≡ some a)) as1)
          → IsReset hash_password request s (
              with_admin accounts tokens audits commit hash_password str_ltb now username
                request.new_password
                (only_admin o)
                s)
      unfolding with_admin only_admin
      with_admin-IsReset now request username s none name sound = refl
      with_admin-IsReset now request username s (some []) name sound = refl
      with_admin-IsReset now request username s (some (a ∷ [])) name sound =
          let all = sound (a ∷ []) refl in
          with_hash-IsReset now request username s a _ refl name all.0.1 all.0.0
      with_admin-IsReset now request username s (some (a ∷ b ∷ more)) name sound = refl

      with_username-IsReset :
          (now : ℕ) (request : ResetRequest) (s : S) (r : Result String)
          → validate_username request.new_username ≡ r
          → IsReset hash_password request s (
              with_username accounts tokens audits commit hash_password str_ltb now
                request.new_password r s)
      unfolding with_username list_admin_accounts
      with_username-IsReset now request s (failed e) name = refl
      with_username-IsReset now request s (ok username) name =
          elim (Bool-cases (ltb (len request.new_password) 8)) [
            | inl short ↦ rw short refl
            | inr long ↦ rw long (
                with_admin-IsReset now request username s _ name
                  (λ as1 e. law.find_sound _ _ _ s as1 e))
          ]

      -- A reset of the administrator either ends with an error and leaves the database as it was, or
      -- finds an administrator's account and gives it the name of the request, trimmed, and the hash
      -- of the password, opens it again where it was locked, keeps its role and revokes each of its
      -- tokens; every other account stays as it was. The assumptions are those on the tables of the
      -- accounts and the tokens, and that tokens and audit entries are tables of their own.
      pub reset_password-IsReset :
          (now : ℕ) (request : ResetRequest) (s : S)
          → IsReset hash_password request s
              (reset_password accounts tokens audits commit hash_password str_ltb now request s)
      unfolding reset_password
      reset_password-IsReset now request s = with_username-IsReset now request s _ refl
