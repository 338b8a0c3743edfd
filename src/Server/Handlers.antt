-- ===== src/Server/Handlers.antt =====
-- `server::createHandler`, the constructor of `server`, and `Init` of the handlers. The handlers keep
-- nothing but what `Init` reads for a proxy, and the roots that all static handlers share.
use cs130capstoneproject.Base.{Option, none, some, List, [], ◌∷◌, if◌then◌else◌}
use cs130capstoneproject.Base.Bytes.{Bytes, codes, equal}
use cs130capstoneproject.Base.Map.{Map, assign}
use cs130capstoneproject.Port.Blocks.{ConfigBlock}
use cs130capstoneproject.Proxy.Handler.{Location, init as init_proxy}
use cs130capstoneproject.Static.Paths.{init as init_static}

-- The classes of handlers that are made.
pub data Handler : Type 0 where
  static_file_handler echo_handler status_handler error_handler health_handler : Handler
  proxy_handler : Location → Handler
  cache_handler : Handler

-- `handlers_tackers`, with its pointers, and `locationToRoot`.
pub record Registry : Type 0 where
  pub handlers : Map (Option Handler)
  pub roots : Map Bytes

abbrev pub with_roots : Option (Map Bytes) → Option (Handler × Map Bytes)
with_roots none = none
with_roots (some roots) = some (static_file_handler, roots)

-- `trim_quotes` is boost's `trim_copy_if` on quotation marks.
module _ (trim_quotes : Bytes → Bytes) where
  -- `createHandler`; `none` is an exception of `Init`, or undefined behaviour: a function that ends
  -- without returning the pointer.
  unfoldable pub create_handler : Bytes → ConfigBlock → Map Bytes → Option (Handler × Map Bytes)
  create_handler location_path block roots =
      if equal block.handler_type (codes "StaticHandler")
      then with_roots (init_static location_path block.content roots)
      else if equal block.handler_type (codes "EchoHandler")
      then some (echo_handler, roots)
      else if equal block.handler_type (codes "StatusHandler")
      then some (status_handler, roots)
      else if equal block.handler_type (codes "ErrorHandler")
      then some (error_handler, roots)
      else if equal block.handler_type (codes "HealthHandler")
      then some (health_handler, roots)
      else if equal block.handler_type (codes "ProxyHandler")
      then some (proxy_handler (init_proxy trim_quotes location_path block.content), roots)
      else if equal block.handler_type (codes "CacheHandler")
      then some (cache_handler, roots)
      else none

  abbrev pub register : Bytes → Option (Handler × Map Bytes) → Registry → Option Registry
  register prefix none r = none
  register prefix (some (h, roots)) r =
      some (record { handlers = assign prefix (some h) r.handlers; roots = roots })

  abbrev pub and_then : (Registry → Option Registry) → Option Registry → Option Registry
  and_then k none = none
  and_then k (some r) = k r

  -- The loop of the constructor.
  unfoldable pub construct : List ConfigBlock → Registry → Option Registry
  construct [] r = some r
  construct (b ∷ blocks) r =
      and_then (construct blocks) (register b.prefix (create_handler b.prefix b r.roots) r)
