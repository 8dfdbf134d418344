-- ===== src/Domain.antt =====
-- The rows of the database and the values the components pass to one another
-- (frp-backend/internal/domain). A time is a number of nanoseconds, a `*time.Time` an `Option`.
pub mod Tunnel
pub mod Node
pub mod Website
pub mod Settings
pub mod Remote
pub mod Job
pub mod Account
pub mod Credential
