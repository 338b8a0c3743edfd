-- ===== src/Server.antt =====
-- src/server.cc and src/main.cc: the handlers that the server makes of its configuration.
pub mod Handlers
pub mod Laws
pub mod Makes
pub mod Serve
pub mod Promises
pub mod Answers
pub mod Roots
pub mod Files
pub mod Start
pub mod Sessions
pub mod Delivered
