-- ===== src/Config.antt =====
-- The configuration parser: include/config_parser.h, src/config_parser.cc.
pub mod Syntax
pub mod Lexer
pub mod Parser
pub mod Tree
pub mod Termination
pub mod Safety
pub mod Lexing
pub mod RoundTrip
