-- ===== src/RequestParser/Request.antt =====
-- include/request.h: the parsed request.
use cs130capstoneproject.Base.{[]}
use cs130capstoneproject.Base.Bytes.{Bytes}
use cs130capstoneproject.Base.Map.{Map}

pub data Method : Type 0 where
  get post put delete head connect options trace patch : Method

pub record Request : Type 0 where
  pub method : Method
  pub uri : Bytes
  pub headers : Map Bytes
  pub body : Bytes
  pub version : Bytes

-- `RequestParser::reset(Request&)`: the request as a session leaves it for its next one.
abbrev pub reset_request : Request
reset_request = record { method = get; uri = []; headers = []; body = []; version = [] }
