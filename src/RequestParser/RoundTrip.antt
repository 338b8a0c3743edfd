-- ===== src/RequestParser/RoundTrip.antt =====
-- Parsing a printed request gives the request back.
mod Runs
mod Bytewise
mod Lines
pub mod Whole
