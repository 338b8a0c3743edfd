-- ===== src/Http.antt =====
-- Responses and the helpers on texts: include/response.h, src/utils.cc.
pub mod Decimal
pub mod Status
pub mod Response
pub mod Utils
