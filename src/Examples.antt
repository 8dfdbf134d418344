-- ===== src/Examples.antt =====
-- Runs of the definitions and the theorems at concrete inputs.
mod Database
mod Frpc
mod Http
mod Auth
mod Failover
mod Dns
mod Logging
mod Chmlfrp
mod Deprovision
mod Worker
mod Admin
mod Security
mod Nodes
mod Works
mod Settings
mod Remote
