-- ===== src/Repository/Settings/Saved.antt =====
-- What a credential that is saved with a setting leaves in the database.
use ashan_frp.Base.{
  ℕ, String, ◌≡◌, refl, sym, ap, ◌∙◌, Bool, true, false, some, Bool-cases, inl, inr,
}
use ashan_frp.Base.Result.{Result, ok, failed}
use ashan_frp.Domain.Settings.{Setting}
use ashan_frp.Domain.Credential.{UpstreamCredential}
use ashan_frp.Repository.{Table, IsTable, IsApart}
use ashan_frp.Repository.Transactions.{finish, transaction}
use ashan_frp.Repository.Settings.{
  set_setting, after_setting, after_credential, save_credential_and_setting,
}

-- The database gives a credential that is written its times.
abbrev pub stamp_credential : ℕ → ℕ → UpstreamCredential → UpstreamCredential
stamp_credential created updated c = record c { created_at = created; updated_at = updated }

module _ {S : Type 0} (settings : Table S Setting) (credentials : Table S UpstreamCredential) where
  -- The database as it was, or with the row of the credential.
  pub data IsSaved (cred : UpstreamCredential) (s : S) : S × Result Unit → Type 0 where
    undone : (e : String) → IsSaved cred s (s, failed e)
    stored :
        (s' : S) (created updated : ℕ)
        → credentials.row cred.id s' ≡ some (stamp_credential created updated cred)
        → IsSaved cred s (s', ok tt)

  module _ (law : IsTable credentials (λ c. c.id) stamp_credential)
      (apart : IsApart settings credentials) (commit : S → Bool) where
    finish-IsSaved :
        (cred : UpstreamCredential) (s s' : S) (created updated : ℕ)
        → credentials.row cred.id s' ≡ some (stamp_credential created updated cred)
        → IsSaved cred s (finish commit s (s', ok tt))
    unfolding finish
    finish-IsSaved cred s s' created updated at = elim (Bool-cases (commit s')) [
      | inl done ↦ rw done (stored s' created updated at)
      | inr lost ↦ rw lost (undone "commit")
    ]

    after_setting-IsSaved :
        (now : ℕ) (cred : UpstreamCredential) (key value : String) (s s1 : S) (created updated : ℕ)
        (r : S × Bool)
        → set_setting settings now key value s1 ≡ r
        → credentials.row cred.id s1 ≡ some (stamp_credential created updated cred)
        → IsSaved cred s (finish commit s (after_setting settings credentials r))
    unfolding finish after_setting set_setting
    after_setting-IsSaved now cred key value s s1 created updated (s2, false) e at =
        undone "save setting"
    after_setting-IsSaved now cred key value s s1 created updated (s2, true) e at =
        finish-IsSaved cred s s2 created updated
          (ap (λ x. credentials.row cred.id x.0) (sym e) ∙ apart.save_apart _ s1 cred.id ∙ at)

    after_credential-IsSaved :
        (now : ℕ) (cred : UpstreamCredential) (key value : String) (s : S) (r : S × Bool)
        → credentials.save cred s ≡ r
        → IsSaved cred s (finish commit s (after_credential settings credentials now key value r))
    unfolding finish after_credential
    after_credential-IsSaved now cred key value s (s1, false) e = undone "save credential"
    after_credential-IsSaved now cred key value s (s1, true) e =
        let (created, updated, at) = law.save_stored cred s (ap (λ x. x.1) e) in
        after_setting-IsSaved now cred key value s s1 created updated _ refl
          (ap (λ x. credentials.row cred.id x.0) (sym e) ∙ at)

    -- A credential and a setting are saved together, or the database is as it was. The assumptions are
    -- those on the table of the credentials, and that the settings are a table of their own.
    pub save_credential_and_setting-IsSaved :
        (now : ℕ) (cred : UpstreamCredential) (key value : String) (s : S)
        → IsSaved cred s
            (save_credential_and_setting settings credentials commit now cred key value s)
    unfolding save_credential_and_setting transaction
    save_credential_and_setting-IsSaved now cred key value s =
        after_credential-IsSaved now cred key value s _ refl
