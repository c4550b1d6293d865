-- ===== src/Utils.antt =====
-- The package sprintutils: tokens, ids, files, and small helpers of the other packages.
pub mod Tokens
pub mod FileMode
pub mod NodeId
pub mod Names
pub mod Address
pub mod Prompt
pub mod RateLimiter
pub mod Files
