-- ===== src/Port.antt =====
-- src/port.cc: the port that the configuration file names.
pub mod Number
pub mod Blocks
pub mod Endless
pub mod Skips
pub mod Rounds
pub mod RoundTrip
pub mod Sites
pub mod File
pub mod Paths
pub mod Search
