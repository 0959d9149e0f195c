-- ===== src/Protocol.antt =====
-- src/protocol.rs: JSON-RPC framing. The revisions, the errors, and the tree of modules below.
pub mod Version
pub mod Errors
pub mod Incoming
pub mod Messages
pub mod Meta
pub mod Sse
pub mod Negotiate
