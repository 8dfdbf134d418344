-- ===== src/Repository/Transactions.antt =====
-- `gorm.DB.Transaction`: a transaction that ends with an error, or that cannot be committed, leaves the
-- database as it was.
use ashan_frp.Base.{Bool, if◌then◌else◌}
use ashan_frp.Base.Result.{Result, ok, failed}

-- `commit` tells whether the database takes the changes of a transaction.
module _ {S : Type 0} (commit : S → Bool) where
  unfoldable pub finish : {A : Type 0} → S → S × Result A → S × Result A
  finish s (s', failed e) = (s, failed e)
  finish s (s', ok a) = if commit s' then (s', ok a) else (s, failed "commit")

  unfoldable pub transaction : {A : Type 0} → (S → S × Result A) → S → S × Result A
  unfolding finish
  transaction body s = finish s (body s)
