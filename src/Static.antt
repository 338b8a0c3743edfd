-- ===== src/Static.antt =====
-- src/static_file_handler.cc: the handler of static files.
pub mod Types
pub mod Paths
pub mod Files
pub mod Roots
pub mod Locations
pub mod Answers
pub mod Sent
pub mod Kinds
pub mod Patterns
pub mod Names
