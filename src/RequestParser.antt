-- ===== src/RequestParser.antt =====
-- The request parser: include/request.h, include/request_parser.h, src/request_parser.cc.
pub mod Request
pub mod Numbers
pub mod State
pub mod Path
pub mod Step
pub mod Parse
pub mod Steps
pub mod Safety
pub mod Print
pub mod Totality
pub mod RoundTrip
pub mod Chunks
pub mod PathSafety
pub mod HeaderMap
pub mod Content
pub mod Raw
