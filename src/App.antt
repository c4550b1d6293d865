-- ===== src/App.antt =====
-- The package sprintapp: the application context, its flags, properties and resources.
pub mod Flags
pub mod Application
pub mod Environment
pub mod Property
pub mod Resources
