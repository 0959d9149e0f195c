-- ===== src/Transport.antt =====
-- src/transport: when a request goes out again, the HTTP exchange, the framed exchange over a pair
-- of streams, and the words of a command line.
pub mod Retry
pub mod Http
pub mod Words
pub mod Framed
