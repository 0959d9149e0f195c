-- ===== src/Background.antt =====
-- src/tasks.rs: tool calls that a server runs in the background. Durations are in milliseconds, but
-- for the seconds of a note. The hints that go with an error, and what is printed, are left out.
pub mod Facts
pub mod Watching
pub mod Running
pub mod Listing
