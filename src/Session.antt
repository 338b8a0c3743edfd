-- ===== src/Session.antt =====
-- src/session.cc: what a session does with the requests that it reads.
pub mod Routing
pub mod Nearest
pub mod Tasks
pub mod Answers
pub mod Checks
pub mod Reading
pub mod Assembly
pub mod Refusal
pub mod Buffer
pub mod Leak
