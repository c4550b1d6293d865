-- ===== src/Core.antt =====
-- The package sprintcore: the services of the core context.
pub mod Store
pub mod ConfigRepository
pub mod JobService
pub mod Autoupdate
pub mod NodeService
pub mod StorageService
pub mod Logging
