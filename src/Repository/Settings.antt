-- ===== src/Repository/Settings.antt =====
-- frp-backend/internal/repository/repository.go: the settings, and a credential with a setting in one
-- transaction.
pub mod Saved
use ashan_frp.Base.{ℕ, String, Bool, true, false}
use ashan_frp.Base.{◌==◌, string_eq}
use ashan_frp.Base.Result.{Result, ok, failed}
use ashan_frp.Domain.Settings.{Setting, zero_setting}
use ashan_frp.Domain.Credential.{UpstreamCredential}
use ashan_frp.Repository.{Table, Lookup, or_zero}
use ashan_frp.Repository.Transactions.{transaction}

module _ {S : Type 0} (settings : Table S Setting) where
  unfoldable pub get_setting : String → S → Lookup Setting
  get_setting key s = or_zero zero_setting (settings.first (λ r. r.key == key) s)

  unfoldable pub set_setting : ℕ → String → String → S → S × Bool
  set_setting now key value s =
      settings.save (record { key = key; value_json = value; updated_at = now }) s

  module _ (credentials : Table S UpstreamCredential) where
    after_setting : S × Bool → S × Result Unit
    after_setting (s, false) = (s, failed "save setting")
    after_setting (s, true) = (s, ok tt)

    after_credential : ℕ → String → String → S × Bool → S × Result Unit
    unfolding after_setting set_setting
    after_credential now key value (s, false) = (s, failed "save credential")
    after_credential now key value (s, true) = after_setting (set_setting now key value s)

    -- `SaveCredentialAndSetting`.
    unfoldable pub save_credential_and_setting :
        (S → Bool) → ℕ → UpstreamCredential → String → String → S → S × Result Unit
    unfolding after_credential transaction
    save_credential_and_setting commit now c key value s =
        transaction commit (λ s. after_credential now key value (credentials.save c s)) s
