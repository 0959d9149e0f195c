-- ===== src/Shell.antt =====
-- src/shell and src/path.rs: what a shell session remembers, and the filter at the end of a line.
pub mod History
