-- ===== src/Proxy.antt =====
-- src/proxy_handler.cc beside its cache, and src/cache_handler.cc.
pub mod Html
pub mod Links
pub mod Directives
pub mod Printed
pub mod Values
pub mod Transfer
pub mod Handler
