-- ===== src/Tests.antt =====
-- The theorems at concrete inputs: the code that is modelled runs on them.
pub mod Samples
pub mod Configuration
pub mod Access
pub mod Tokens
pub mod Process
pub mod Services
pub mod Start
pub mod Maintenance
pub mod Servers
pub mod Commands
pub mod Utilities
