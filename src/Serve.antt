-- ===== src/Serve.antt =====
-- src/serve.rs: a saved server relayed to clients that never hold what authorizes it.
pub mod Filtering
pub mod Proxying
