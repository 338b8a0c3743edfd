-- ===== src/Config/RoundTrip.antt =====
-- Parsing what `ToString` prints.
pub mod Printable
pub mod Rounds
pub mod Statements
pub mod Configs
pub mod Whole
