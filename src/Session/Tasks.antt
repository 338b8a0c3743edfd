-- ===== src/Session/Tasks.antt =====
-- `session::handler_task` and `session::good_request`. The map of handlers has pointers, which may be
-- null; what the handlers do, with `none` for an exception or undefined behaviour, and the state that
-- they share beside the log, are parameters.
use cs130capstoneproject.Base.{ℕ, Bool, true, false, Option, none, some, List, []}
use cs130capstoneproject.Base.Bytes.{Bytes, codes}
use cs130capstoneproject.Base.Map.{Map, lookup, assign}
use cs130capstoneproject.RequestParser.Request.{Request, reset_request}
use cs130capstoneproject.RequestParser.State.{Parser}
use cs130capstoneproject.RequestParser.Parse.{Parsed, parse}
use cs130capstoneproject.Http.Response.{Response}
use cs130capstoneproject.Handlers.Log.{Log}
use cs130capstoneproject.Handlers.Text.{handle_error}
use cs130capstoneproject.Dispatcher.{Write, status_line, dispatch}
use cs130capstoneproject.Session.Routing.{quoted, route}

module _ (Handler : Type 0) (Shared : Type 0)
    (handle : Handler → Request → Log × Shared → Option (Response × Log × Shared))
    (accepts : ℕ → ℕ → ℕ) where
  abbrev pub Handlers : Type 0
  Handlers = Map (Option Handler)

  -- What the server keeps, and the session: its request, and the text that it has read.
  pub record World : Type 0 where
    pub handlers : Handlers
    pub shared : Log × Shared
    pub parser : Parser
    pub request : Request
    pub request_start : Bool
    pub http_body : Bytes

  -- handlers_tackers[key]: a key that is not there is inserted with a null pointer
  abbrev pub value_at : Bytes → Handlers → Option (Option Handler) → Option Handler × Handlers
  value_at key m none = (none, assign key none m)
  value_at key m (some h) = (h, m)

  unfoldable pub index : Bytes → Handlers → Option Handler × Handlers
  index key m = value_at key m (lookup key m)

  abbrev pub after_call : World → Option (Response × Log × Shared) → Option (Response × World)
  after_call w none = none
  after_call w (some (res, log, shared)) = some (res, record w { shared = (log, shared) })

  -- A call through a pointer; `none` is a call through the null pointer.
  abbrev pub call : Option Handler → Request → World → Option (Response × World)
  call none req w = none
  call (some h) req w = after_call w (handle h req w.shared)

  abbrev pub call_or_error : Option Handler → Request → World → Option (Response × World)
  call_or_error none req w = some (
    (handle_error req w.shared.0).0,
    record w { shared = ((handle_error req w.shared.0).1, w.shared.1) },
  )
  call_or_error (some h) req w = call (some h) req w

  -- `handler_task`
  unfoldable pub handler_task : Bool → Bytes → World → Option (Response × World)
  handler_task true key w =
      let (h, m) = index key w.handlers in call h w.request (record w { handlers = m })
  handler_task false key w =
      let (h, m) = index (quoted (codes "/")) w.handlers in
      call_or_error h w.request (record w { handlers = m })

  -- The answer is dispatched, and the session is as before a request. The value is the status line
  -- that `good_request` returns.
  abbrev pub finish_request : Option (Response × World) → Option (Bytes × List Write × World)
  finish_request none = none
  finish_request (some (r, w)) =
      some (
        status_line r.code,
        dispatch accepts r,
        record w { http_body = []; request = reset_request },
      )

  abbrev pub answer_with : World → Option (Bool × Bytes) → Option (Bytes × List Write × World)
  answer_with w none = none
  answer_with w (some (found, key)) = finish_request (handler_task found key w)

  abbrev pub answer_parsed : World → Option Parsed → Option (Bytes × List Write × World)
  answer_parsed w none = none
  answer_parsed w (some d) =
      answer_with (record w { parser = d.parser; request = d.request })
        (route w.handlers d.request.uri)

  -- `good_request`, which does not look at the result of `Parse`; `none` is undefined behaviour.
  unfoldable pub good_request : Bytes → World → Option (Bytes × List Write × World)
  good_request text w = answer_parsed w (parse w.parser w.request text)
