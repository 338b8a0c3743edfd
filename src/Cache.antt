-- ===== src/Cache.antt =====
-- The cache of proxied pages: include/cached_page.h, src/cached_page.cc, and the cache operations of
-- src/proxy_handler.cc.
pub mod Page
pub mod Control
pub mod Store
pub mod Laws
