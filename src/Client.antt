-- ===== src/Client.antt =====
-- src/client.rs: connecting to servers and telling how they are.
pub mod Tools
pub mod Statuses
pub mod Eras
