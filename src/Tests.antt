-- ===== src/Tests.antt =====
-- The theorems at concrete inputs, and runs of the definitions.
mod Protocol
mod Transport
mod Shell
mod Framed
mod Session
mod Diagnosis
mod Config
mod Background
mod Serve
mod Oauth
mod Client
mod Forms
mod Search
