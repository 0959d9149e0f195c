-- ===== src/Config.antt =====
-- src/config.rs: what is saved about servers, and what it allows, expands to and forgets.
pub mod Glob
pub mod Expand
pub mod Servers
pub mod Credentials
pub mod Files
pub mod Notes
pub mod Store
