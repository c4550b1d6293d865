-- ===== src/Server.antt =====
-- The package sprintserver: authorization, the control service and the servers.
pub mod Authorization
pub mod Control
pub mod Http
pub mod Lifecycle
