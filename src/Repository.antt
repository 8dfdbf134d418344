-- ===== src/Repository.antt =====
-- frp-backend/internal/repository. The database itself, gorm over SQLite, is not part of the
-- program: a `Table` is what the repository asks of it, and `IsTable` what it relies on. Any call may
-- fail, and then changes nothing.
pub mod Jobs
pub mod Tunnels
pub mod Accounts
pub mod Credentials
pub mod Nodes
pub mod Websites
pub mod Transactions
pub mod Settings
pub mod Memory
pub mod Parts
use ashan_frp.Base.{ℕ, String, ◌≡◌, ◌≢◌, Bool, true, false, Option, none, some, List, All, ◌⊎◌}

pub record Table (S Row : Type 0) : Type 0 where
  pub row : String → S → Option Row  -- the row with this primary key
  pub first : (Row → Bool) → S → Option Row  -- `Where(..).First(..)`, none on any error
  pub find : (Row → Bool) → (Row → Row → Bool) → Option ℕ → S → Option (List Row)
      -- `Where(..).Order(..).Limit(..).Find(..)`, none on an error
  pub save : Row → S → S × Bool  -- `Save(..)`, false on an error
  pub create : Row → S → S × Bool  -- `Create(..)`, false on an error
  pub update : (Row → Bool) → (Row → Row) → S → S × Bool
      -- `Model(..).Where(..).Updates(..)`, false on an error
  pub affected : (Row → Bool) → S → ℕ  -- the `RowsAffected` of such an update

-- What gorm documents of these calls. It sets the times of a row that it writes by itself.
pub record IsTable {S Row : Type 0} (T : Table S Row) (id : Row → String)
    (stamp : ℕ → ℕ → Row → Row) : Type 0 where
  pub first_sound :
      (p : Row → Bool) (s : S) (r : Row)
      → T.first p s ≡ some r
      → (p r ≡ true) × (T.row (id r) s ≡ some r)
  pub find_sound :
      (p : Row → Bool) (before : Row → Row → Bool) (limit : Option ℕ) (s : S) (rs : List Row)
      → T.find p before limit s ≡ some rs
      → All (λ r. (p r ≡ true) × (T.row (id r) s ≡ some r)) rs
  pub save_other : (r : Row) (s : S) (k : String) → k ≢ id r → T.row k (T.save r s).0 ≡ T.row k s
  pub save_failed :
      (r : Row) (s : S) (k : String) → (T.save r s).1 ≡ false → T.row k (T.save r s).0 ≡ T.row k s
  pub save_stored :
      (r : Row) (s : S)
      → (T.save r s).1 ≡ true
      → (c : ℕ) × (u : ℕ) × (T.row (id r) (T.save r s).0 ≡ some (stamp c u r))
  pub create_kept :
      (r q : Row) (s : S) (k : String) → T.row k s ≡ some q → T.row k (T.create r s).0 ≡ some q
  pub update_failed :
      (p : Row → Bool) (f : Row → Row) (s : S) (k : String)
      → (T.update p f s).1 ≡ false
      → T.row k (T.update p f s).0 ≡ T.row k s
  pub update_stored :
      (p : Row → Bool) (f : Row → Row) (s : S) (k : String) (r : Row)
      → ((q : Row) → id (f q) ≡ id q)
      → (T.update p f s).1 ≡ true
      → T.row k (T.update p f s).0 ≡ some r
      → (q : Row) × (T.row k s ≡ some q)
        × ((p q ≡ true) × ((c : ℕ) × (u : ℕ) × (r ≡ stamp c u (f q))) ⊎ (p q ≡ false) × (r ≡ q))
  pub update_found :
      (p : Row → Bool) (f : Row → Row) (s : S) (k : String) (q : Row)
      → ((q : Row) → id (f q) ≡ id q)
      → (T.update p f s).1 ≡ true
      → T.row k s ≡ some q
      → (r : Row) × (T.row k (T.update p f s).0 ≡ some r)

-- A change of one table leaves the rows of the other alone.
pub record IsApart {S Row Other : Type 0} (T : Table S Row) (U : Table S Other) : Type 0 where
  pub save_apart : (r : Row) (s : S) (k : String) → U.row k (T.save r s).0 ≡ U.row k s
  pub create_apart : (r : Row) (s : S) (k : String) → U.row k (T.create r s).0 ≡ U.row k s
  pub update_apart :
      (p : Row → Bool) (f : Row → Row) (s : S) (k : String) → U.row k (T.update p f s).0 ≡ U.row k s

-- A pointer and an error, as a finder returns them.
pub record Lookup (Row : Type 0) : Type 0 where
  pub pointer : Option Row
  pub failed : Bool

-- `var r T; err := db.First(&r); return &r, err`: the pointer is never nil.
abbrev pub or_zero : {Row : Type 0} → Row → Option Row → Lookup Row
or_zero zero none = record { pointer = some zero; failed = true }
or_zero zero (some r) = record { pointer = some r; failed = false }

-- The finders that return nil with the error.
abbrev pub or_nil : {Row : Type 0} → Option Row → Lookup Row
or_nil none = record { pointer = none; failed = true }
or_nil (some r) = record { pointer = some r; failed = false }

-- The row where there is no error.
abbrev pub success : {Row : Type 0} → Lookup Row → Option Row
success l = elim l.failed [ true ↦ none | false ↦ l.pointer ]

pub success-or_zero :
    {Row : Type 0} (zero r : Row) (o : Option Row) → success (or_zero zero o) ≡ some r → o ≡ some r
success-or_zero zero r none e = cc
success-or_zero zero r (some q) e = e
