-- ===== src/Handlers.antt =====
-- The request handlers: src/status_handler.cc, src/echo_handler.cc, src/error_handler.cc,
-- src/health_handler.cc.
pub mod Log
pub mod Echo
pub mod Text
pub mod Reports
