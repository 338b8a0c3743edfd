-- ===== src/Server/Serve.antt =====
-- What the handlers of a server do: the parameter of the sessions, for the handlers that
-- `createHandler` makes. Under the session each request is one step of the state that they share.
use cs130capstoneproject.Base.{ℕ, ◌+◌, Option, none, some}
use cs130capstoneproject.Base.Bytes.{Bytes}
use cs130capstoneproject.Base.Map.{Map}
use cs130capstoneproject.RequestParser.Request.{Request}
use cs130capstoneproject.Http.Response.{Response}
use cs130capstoneproject.Handlers.Log.{Log, handle_status}
use cs130capstoneproject.Handlers.Echo.{handle_echo}
use cs130capstoneproject.Handlers.Text.{handle_error, handle_health}
use cs130capstoneproject.Cache.Page.{Page}
use cs130capstoneproject.Proxy.Transfer.{Transfer}
use cs130capstoneproject.Proxy.Handler.{Stored, handle_request as handle_proxied, handle_cached}
use cs130capstoneproject.Static.Files.{FileSystem, handle_request as handle_file}
use cs130capstoneproject.Server.Handlers.{
  Handler, static_file_handler, echo_handler, status_handler, error_handler, health_handler,
  proxy_handler, cache_handler,
}

-- What a request meets outside the program: the files, what curl makes of a destination, and the time
-- before and after that.
pub record Surroundings : Type 0 where
  pub files : FileSystem
  pub transfer : Bytes → Transfer
  pub now : ℕ
  pub later : ℕ

-- What handlers share beside the log: `locationToRoot` and `cached_pages`. The number of requests
-- tells which surroundings the next one meets.
pub record Shared : Type 0 where
  pub roots : Map Bytes
  pub pages : Map Page
  pub requests : ℕ

-- A response, and what is shared afterwards.
abbrev pub Served : Type 0
Served = Option (Response × Log × Shared)

abbrev pub counted : Shared → Shared
counted s = record s { requests = s.requests + 1 }

abbrev pub with_log : Shared → Response × Log → Served
with_log s (res, log) = some (res, log, counted s)

abbrev pub with_roots : Shared → Option (Response × Map Bytes × Log) → Served
with_roots s none = none
with_roots s (some (res, roots, log)) = some (res, log, counted (record s { roots = roots }))

abbrev pub with_stored : Shared → Option (Response × Stored) → Served
with_stored s none = none
with_stored s (some (res, stored)) =
    some (res, stored.log, counted (record s { pages = stored.pages }))

module _ (trim : Bytes → Bytes) (surroundings : ℕ → Surroundings) where
  abbrev pub serve_in : Surroundings → Handler → Request → Log → Shared → Served
  serve_in e static_file_handler req log s = with_roots s (handle_file e.files req s.roots log)
  serve_in e echo_handler req log s = with_log s (handle_echo req log)
  serve_in e status_handler req log s = with_log s (handle_status req log)
  serve_in e error_handler req log s = with_log s (handle_error req log)
  serve_in e health_handler req log s = with_log s (handle_health req log)
  serve_in e (proxy_handler l) req log s =
      with_stored s
        (handle_proxied trim e.transfer e.now e.later l req (record { pages = s.pages; log = log }))
  serve_in e cache_handler req log s =
      with_stored s
        (handle_cached trim e.transfer e.now e.later req (record { pages = s.pages; log = log }))

  -- `handleRequest`, by the class of the handler.
  unfoldable pub serve : Handler → Request → Log × Shared → Served
  serve h req (log, s) = serve_in (surroundings s.requests) h req log s
