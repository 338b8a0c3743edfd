-- ===== src/Session/Answers.antt =====
-- What a session answers to a request that it has read in full.
use cs130capstoneproject.Base.{
  ℕ, ◌≡◌, refl, ◌∙◌, Bool, true, false, Option, none, some, List, [], arith,
}
use cs130capstoneproject.Base.Bytes.{Bytes, codes, starts_with, equal_refl}
use cs130capstoneproject.Base.Map.{Map, lookup, assign, lookup-assign}
use cs130capstoneproject.RequestParser.Request.{Request, reset_request}
use cs130capstoneproject.RequestParser.State.{Parser, fresh}
use cs130capstoneproject.RequestParser.Print.{Message, print, IsWellFormed}
use cs130capstoneproject.RequestParser.RoundTrip.Whole.{message_request, parse-print}
use cs130capstoneproject.Http.Response.{Response}
use cs130capstoneproject.Handlers.Log.{Log}
use cs130capstoneproject.Handlers.Text.{handle_error}
use cs130capstoneproject.Dispatcher.{Write, status_line, dispatch}
use cs130capstoneproject.Session.Routing.{quoted, first_key, search, route}
use cs130capstoneproject.Session.Tasks

module _ (Handler : Type 0) (Shared : Type 0)
    (handle : Handler → Request → Log × Shared → Option (Response × Log × Shared))
    (accepts : ℕ → ℕ → ℕ) where
  abbrev pub SessionWorld : Type 0
  SessionWorld = Tasks.World Handler Shared handle accepts

  abbrev good_request : Bytes → SessionWorld → Option (Bytes × List Write × SessionWorld)
  good_request = Tasks.good_request Handler Shared handle accepts

  abbrev answer_with :
      SessionWorld → Option (Bool × Bytes) → Option (Bytes × List Write × SessionWorld)
  answer_with = Tasks.answer_with Handler Shared handle accepts

  good_request-message :
      (w : SessionWorld) (r : ℕ) (m : Message)
      → w.parser ≡ fresh r
      → IsWellFormed m
      → (r' : ℕ) × (good_request (print m []) w
          ≡ answer_with
              (record w { parser = fresh r'; request = message_request m })
              (route w.handlers m.uri))
  unfolding Tasks.good_request
  good_request-message w r m p h =
      let parsed = parse-print r w.request m [] h in (parsed.0, rw (p, parsed.1) refl)

  -- The world after a handler has answered.
  abbrev pub answered : SessionWorld → Parser → Log × Shared → SessionWorld
  answered w p s = record w { parser = p; shared = s; http_body = []; request = reset_request }

  -- A well-formed request, read in full by a session with a new parser, whose URI leads to a handler,
  -- is answered by the response that this handler makes, if it makes one, of the request as it was sent:
  -- it is dispatched and its status line returned. Afterwards the parser is new, the request and the
  -- text that was read are empty, the state that handlers share is as the handler left it, and the map
  -- of handlers is the same.
  pub good_request-handled :
      (w : SessionWorld) (r : ℕ) (m : Message) (key : Bytes) (h : Handler) (res : Response)
      (log : Log) (shared : Shared)
      → w.parser ≡ fresh r
      → IsWellFormed m
      → route w.handlers m.uri ≡ some (true, key)
      → lookup key w.handlers ≡ some (some h)
      → handle h (message_request m) w.shared ≡ some (res, log, shared)
      → (r' : ℕ) × (good_request (print m []) w
          ≡ some (status_line res.code, dispatch accepts res, answered w (fresh r') (log, shared)))
  unfolding Tasks.handler_task Tasks.index
  good_request-handled w r m key h res log shared p wf e k answer =
      let parsed = good_request-message w r m p wf in (parsed.0, parsed.1 ∙ rw (e, k, answer) refl)

  abbrev root : Bytes
  root = quoted (codes "/")

  lookup-root : (hs : Map (Option Handler)) → lookup root (assign root none hs) ≡ some none
  lookup-root hs = rw (lookup-assign root root none hs, equal_refl root) refl

  route-root :
      (hs : Map (Option Handler)) (p : Option Handler)
      → lookup root hs ≡ some p
      → route hs (codes "/") ≡ some (true, root)
  unfolding route first_key search starts_with
  route-root hs p e = ground (arith, e)

  -- The world after the error handler has answered.
  abbrev refused : SessionWorld → Parser → Log → SessionWorld
  refused w p log = record (answered w p (log, w.shared.1)) {
    handlers = assign root none w.handlers;
  }

  good_request-refused :
      (w : SessionWorld) (r : ℕ) (m : Message) (key : Bytes)
      → w.parser ≡ fresh r
      → IsWellFormed m
      → route w.handlers m.uri ≡ some (false, key)
      → lookup root w.handlers ≡ none
      → (r' : ℕ) × (good_request (print m []) w
          ≡ some (
            status_line (handle_error (message_request m) w.shared.0).0.code,
            dispatch accepts (handle_error (message_request m) w.shared.0).0,
            refused w (fresh r') (handle_error (message_request m) w.shared.0).1,
          ))
  unfolding Tasks.handler_task Tasks.index
  good_request-refused w r m key p wf e k =
      let parsed = good_request-message w r m p wf in (parsed.0, parsed.1 ∙ rw (e, k) refl)

  good_request-crash :
      (w : SessionWorld) (r : ℕ) (m : Message)
      → w.parser ≡ fresh r
      → IsWellFormed m
      → m.uri ≡ codes "/"
      → lookup root w.handlers ≡ some none
      → good_request (print m []) w ≡ none
  unfolding Tasks.handler_task Tasks.index
  good_request-crash w r m p wf u k =
      (good_request-message w r m p wf).1 ∙ rw (u, route-root w.handlers none k, k) refl

  -- What the error handler answers, with the log that it leaves.
  abbrev error_answer : Request → SessionWorld → Response × Log
  error_answer req w = handle_error req w.shared.0

  -- Where the search finds no handler for a well-formed request, to a session with a new parser, and
  -- none is registered for "/", the request is answered by the error handler, and any well-formed
  -- request for "/" that follows is a call through a null pointer.
  pub good_request-null :
      (w : SessionWorld) (r : ℕ) (m n : Message) (key : Bytes)
      → w.parser ≡ fresh r
      → IsWellFormed m
      → IsWellFormed n
      → n.uri ≡ codes "/"
      → route w.handlers m.uri ≡ some (false, key)
      → lookup (quoted (codes "/")) w.handlers ≡ none
      → (w' : SessionWorld) × (good_request (print m []) w
          ≡ some (
            status_line (error_answer (message_request m) w).0.code,
            dispatch accepts (error_answer (message_request m) w).0,
            w',
          ))
        × (good_request (print n []) w' ≡ none)
  good_request-null w r m n key p wm wn u e k =
      let first = good_request-refused w r m key p wm e k in
      let w' = refused w (fresh first.0) (error_answer (message_request m) w).1 in
      (w', first.1, good_request-crash w' first.0 n refl wn u (lookup-root w.handlers))
