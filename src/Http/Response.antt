-- ===== src/Http/Response.antt =====
-- include/response.h: the response of a handler.
use cs130capstoneproject.Base.{ℕ}
use cs130capstoneproject.Base.Bytes.{Bytes}
use cs130capstoneproject.Base.Map.{Map}
use cs130capstoneproject.Http.Status.{StatusCode}

pub record Response : Type 0 where
  pub code : StatusCode
  pub headers : Map Bytes
  pub body : Bytes
  pub src_type : ℕ
