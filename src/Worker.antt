-- ===== src/Worker.antt =====
-- The background workers (frp-backend/internal/worker).
pub mod Queue
pub mod Failover
pub mod Deprovision
pub mod Reconcile
pub mod Nodes
pub mod Provision
pub mod Works
