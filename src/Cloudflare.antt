-- ===== src/Cloudflare.antt =====
-- frp-backend/internal/integration/cloudflare: the client of the Cloudflare API.
pub mod Answer
pub mod Payload
pub mod Paging
pub mod Client
