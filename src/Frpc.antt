-- ===== src/Frpc.antt =====
-- The frpc runtime: its configuration and the manager of its process (frp-backend/internal/frpc).
pub mod Config
pub mod Toml
pub mod Manager
