-- ===== src/Oauth.antt =====
-- src/oauth.rs: logging in to the authorization server of an MCP server.
pub mod Encoding
pub mod Utf8
pub mod Callback
pub mod Clients
