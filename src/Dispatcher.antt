-- ===== src/Dispatcher.antt =====
-- src/dispatcher.cc: a response as the bytes that are written to the client.
pub mod Writes
use cs130capstoneproject.Base.{
  ℕ, zero, suc, ◌+◌, ◌-◌, Bool, List, [], ◌∷◌, ◌++◌, ◌==◌, ltb, length, take, drop, if◌then◌else◌,
}
use cs130capstoneproject.Base.Bytes.{Bytes, codes}
use cs130capstoneproject.Base.Map.{Map}
use cs130capstoneproject.Http.Status
use cs130capstoneproject.Http.Status.{StatusCode}
use cs130capstoneproject.Http.Response.{Response}
use cs130capstoneproject.Http.Utils.{format_header, format_end}

-- `ToString`: the status line. Any other code has that of an internal server error.
unfoldable pub status_line : StatusCode → Bytes
status_line code =
    if code == Status.ok
    then codes "HTTP/1.1 200 OK\r\n"
    else if code == Status.created
    then codes "HTTP/1.1 201 Created\r\n"
    else if code == Status.accepted
    then codes "HTTP/1.1 202 Accepted\r\n"
    else if code == Status.no_content
    then codes "HTTP/1.1 204 No Content\r\n"
    else if code == Status.moved_permanently
    then codes "HTTP/1.1 301 Moved Permanently\r\n"
    else if code == Status.moved_temporarily
    then codes "HTTP/1.1 302 Moved Temporarily\r\n"
    else if code == Status.not_modified
    then codes "HTTP/1.1 304 Not Modified\r\n"
    else if code == Status.bad_request
    then codes "HTTP/1.1 400 Bad Request\r\n"
    else if code == Status.unauthorized
    then codes "HTTP/1.1 401 Unauthorized\r\n"
    else if code == Status.forbidden
    then codes "HTTP/1.1 403 Forbidden\r\n"
    else if code == Status.not_found
    then codes "HTTP/1.1 404 Not Found\r\n"
    else if code == Status.internal_server_error
    then codes "HTTP/1.1 500 Internal Server Error\r\n"
    else if code == Status.not_implemented
    then codes "HTTP/1.1 501 Not Implemented\r\n"
    else if code == Status.bad_gateway
    then codes "HTTP/1.1 502 Bad Gateway\r\n"
    else if code == Status.service_unavailable
    then codes "HTTP/1.1 503 Service Unavailable\r\n"
    else codes "HTTP/1.1 500 Internal Server Error\r\n"

-- the loop over the headers, in the order of the map
unfoldable pub header_lines : Map Bytes → Bytes
header_lines [] = []
header_lines ((name, value) ∷ hs) = format_header name value ++ header_lines hs

unfoldable pub head_of : Response → Bytes
head_of r = (status_line r.code ++ header_lines r.headers) ++ format_end

-- What the session's socket is asked to write: `send_response` starts an asynchronous write, and
-- `write_some` writes a number of the bytes that it is given, and returns it.
pub data Write : Type 0 where
  async_write write_some : Bytes → Write

module _ (accepts : ℕ → ℕ → ℕ) where
  -- `while (total_write != size)`, with the bytes from `total` on; `accepts total left` is how many
  -- of the `left` bytes that are offered at `total` the socket takes. A round takes fuel.
  unfoldable pub write_loop : ℕ → ℕ → Bytes → List Write
  write_loop zero total content = []
  write_loop (suc f) total [] = []
  write_loop (suc f) total (c ∷ cs) =
      let n = accepts total (length (c ∷ cs)) in
      write_some (take n (c ∷ cs)) ∷ write_loop f (total + n) (drop n (c ∷ cs))

  -- `dispatch`: every round writes a byte at least, so as many rounds as there are bytes are enough.
  unfoldable pub dispatch : Response → List Write
  dispatch r =
      if ltb r.src_type 2
      then async_write (head_of r ++ r.body) ∷ []
      else async_write (head_of r) ∷ write_loop (length r.body) 0 r.body
