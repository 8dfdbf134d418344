-- ===== src/Http.antt =====
-- The HTTP layer (frp-backend/internal/http).
pub mod Response
pub mod Request
pub mod Frpc
pub mod Tunnels
pub mod Auth
pub mod Access
pub mod Dns
pub mod Nodes
pub mod Websites
pub mod Settings
