-- ===== src/Server/Sessions/Served.antt =====
-- The answer to a request that reached a session in pieces, among the events of other sessions.
use cs130capstoneproject.Base.{
  ℕ, zero, suc, ◌+◌, ◌≡◌, refl, ◌∙◌, Bool, true, false, Option, some, List, [], ◌∷◌, ◌++◌, map,
  arith, length, drop, update, All, get_elem?-update, ltb, Bool-cases, inl, inr,
}
use cs130capstoneproject.Base.Bytes.{Bytes}
use cs130capstoneproject.Base.Map.{lookup}
use cs130capstoneproject.RequestParser.Request.{Request, reset_request}
use cs130capstoneproject.RequestParser.State.{fresh}
use cs130capstoneproject.RequestParser.Print.{Message, print, IsWellFormed}
use cs130capstoneproject.RequestParser.RoundTrip.Whole.{message_request}
use cs130capstoneproject.Http.Response.{Response}
use cs130capstoneproject.Http.Utils.{crlf}
use cs130capstoneproject.Handlers.Log.{Log}
use cs130capstoneproject.Dispatcher.{write_loop, dispatch}
use cs130capstoneproject.Session.Tasks
use cs130capstoneproject.Session.Routing.{route}
use cs130capstoneproject.Session.Reading.{Action, write, read_some, handle_read}
use cs130capstoneproject.Session.Buffer.{cleared}
use cs130capstoneproject.Session.Answers.{answered, good_request-handled}
use cs130capstoneproject.Session.Assembly
use cs130capstoneproject.Session.Assembly.{read_event-end}
use cs130capstoneproject.Server.Sessions
use cs130capstoneproject.Server.Sessions.State.{
  writing, Session, Event, was_read, was_written, perform_all,
}
use cs130capstoneproject.Server.Sessions.Interleaved
use cs130capstoneproject.Server.Sessions.Interleaved.{
  ready, Interleaved, IsPiece, run-lines, step-ready,
}

-- A session that writes its answer.
abbrev pub answering : Session
answering = record (ready reset_request false []) { operations = writing ∷ [] }

module _ (accepts : ℕ → ℕ → ℕ) where
  perform_all-write_loop :
      (f total : ℕ) (s : Bytes) (c : Session)
      → perform_all (map write (write_loop accepts f total s)) c ≡ c
  unfolding write_loop
  perform_all-write_loop zero total s c = refl
  perform_all-write_loop (suc f) total [] c = refl
  perform_all-write_loop (suc f) total (b ∷ s) c =
      let n = accepts total (length (b ∷ s)) in
      perform_all-write_loop f (total + n) (drop n (b ∷ s)) c

  perform_all-dispatch :
      (r : Response) (c : Session)
      → perform_all (map write (dispatch accepts r)) c
        ≡ record c { array = cleared; operations = writing ∷ c.operations }
  unfolding dispatch
  perform_all-dispatch r c = elim (Bool-cases (ltb r.src_type 2)) [
    | inl plain ↦ rw plain refl
    | inr binary ↦ rw binary (perform_all-write_loop (length r.body) 0 r.body _)
  ]

module _ (Handler : Type 0) (Shared : Type 0)
    (handle : Handler → Request → Log × Shared → Option (Response × Log × Shared))
    (accepts : ℕ → ℕ → ℕ) (regex_match : Bytes → Bytes → Bool) where
  abbrev Server : Type 0
  Server = Sessions.Server Handler Shared handle accepts regex_match

  abbrev Stepped : Type 0
  Stepped = Option (List Action × Server)

  abbrev World : Type 0
  World = Tasks.World Handler Shared handle accepts

  abbrev step : Event → Server → Stepped
  step = Sessions.step Handler Shared handle accepts regex_match

  abbrev world_of : Server → Session → World
  world_of = Sessions.world_of Handler Shared handle accepts regex_match

  abbrev session_at : ℕ → Server → Option Session
  session_at = Interleaved.session_at Handler Shared handle accepts regex_match

  abbrev read_event : Bytes → World → Option (List Action × World)
  read_event s w = handle_read Handler Shared handle accepts regex_match false s (length s) w

  -- The session that reads the empty line behind a well-formed request.
  read_event-handled :
      (w : World) (r : ℕ) (m : Message) (key body : Bytes) (h : Handler) (res : Response)
      (log : Log) (shared : Shared)
      → w.http_body ≡ []
      → w.parser ≡ fresh r
      → body ++ crlf ≡ print m []
      → IsWellFormed m
      → route w.handlers m.uri ≡ some (true, key)
      → lookup key w.handlers ≡ some (some h)
      → handle h (message_request m) w.shared ≡ some (res, log, shared)
      → (r' : ℕ) × (read_event crlf
            (Assembly.started Handler Shared handle accepts regex_match body w)
          ≡ some (
            map write (dispatch accepts res),
            record (answered Handler Shared handle accepts w (fresh r') (log, shared)) {
              request_start = false;
            },
          ))
  read_event-handled w r m key body h res log shared empty parser text wf found known answer =
      let w' = record w { request_start = false; http_body = print m [] } in
      let done =
        good_request-handled Handler Shared handle accepts w' r m key h res log shared parser wf
          found known answer in
      (
        done.0,
        read_event-end Handler Shared handle accepts regex_match body w
            ∙ rw (empty, text) (rw done.1 refl),
      )

  abbrev text_of : Bytes → List Bytes → Bytes
  text_of = Assembly.text_of Handler Shared handle accepts regex_match

  step-handled :
      (i : ℕ) (req : Request) (body : Bytes) (t : Server) (r : ℕ) (m : Message) (key : Bytes)
      (h : Handler) (res : Response) (log : Log) (shared : Shared)
      → session_at i t ≡ some (ready req true body)
      → t.parser ≡ fresh r
      → body ++ crlf ≡ print m []
      → IsWellFormed m
      → route t.handlers m.uri ≡ some (true, key)
      → lookup key t.handlers ≡ some (some h)
      → handle h (message_request m) t.shared ≡ some (res, log, shared)
      → (r' : ℕ) × (step (was_read i crlf) t
          ≡ some (
            map write (dispatch accepts res),
            record t {
              shared = (log, shared);
              parser = fresh r';
              sessions = update i answering t.sessions;
            },
          ))
  step-handled i req body t r m key h res log shared here parser text wf found known answer =
      let w = world_of t (ready req false []) in
      let done =
        read_event-handled w r m key body h res log shared refl parser text wf found known answer in
      (
        done.0,
        step-ready Handler Shared handle accepts regex_match i req true body crlf t here
              (ground arith, omega arith)
            ∙ rw (done.1, perform_all-dispatch accepts res) refl,
      )

  -- The server after it has answered the session `i`.
  abbrev pub with_answer : ℕ → ℕ → Log × Shared → Server → Server
  with_answer i r shared t = record t {
    shared = shared;
    parser = fresh r;
    sessions = update i answering t.sessions;
  }

  -- The session `i`, when its answer is written.
  step-again :
      (i : ℕ) (u : Server)
      → session_at i u ≡ some answering
      → (v : Server) × (step (was_written i) u ≡ some (read_some ∷ [], v))
        × (session_at i v ≡ some (ready reset_request false []))
  unfolding Sessions.step
  step-again i u here = (
    record u { sessions = update i (ready reset_request false []) u.sessions },
    rw here refl,
    get_elem?-update i (ready reset_request false []) answering u.sessions here,
  )

  -- A session that waits for a request reads a request line of a known method and texts that are
  -- headers, each without a null and shorter than its array, among any events of other sessions, in
  -- the order of the text of a well-formed request. If the server goes on, the parser is new at the
  -- end, and the URI then leads to a handler that answers: when the session reads the empty line, the
  -- response that the handler makes of the request as it was sent is dispatched to it, the state that
  -- handlers share is the handler's, the parser is new, and no other session changes; when that is
  -- written, the session waits for a request as at first.
  pub run-handled :
      (i : ℕ) (req : Request) (s : Bytes) (ss : List Bytes) (es : List Event) (srv t : Server)
      (r : ℕ) (m : Message) (key : Bytes) (h : Handler) (res : Response) (log : Log)
      (shared : Shared)
      → session_at i srv ≡ some (ready req false [])
      → Interleaved i ((s ++ crlf) ∷ ss) es
      → Interleaved.run Handler Shared handle accepts regex_match es srv ≡ some t
      → All IsPiece ((s ++ crlf) ∷ ss)
      → Assembly.IsRequestLine Handler Shared handle accepts regex_match s
      → All (Assembly.IsHeaderLine Handler Shared handle accepts regex_match) ss
      → text_of s ss ≡ print m []
      → IsWellFormed m
      → t.parser ≡ fresh r
      → route t.handlers m.uri ≡ some (true, key)
      → lookup key t.handlers ≡ some (some h)
      → handle h (message_request m) t.shared ≡ some (res, log, shared)
      → (r' : ℕ) × (v : Server) × (step (was_read i crlf) t
          ≡ some (map write (dispatch accepts res), with_answer i r' (log, shared) t))
        × (step (was_written i) (with_answer i r' (log, shared) t) ≡ some (read_some ∷ [], v))
        × (session_at i v ≡ some (ready reset_request false []))
  run-handled i req s ss es srv t r m key h res log shared waits order goes pieces line hs text wf
        parser found known answer =
      let body = (s ++ crlf) ++ Assembly.joined Handler Shared handle accepts regex_match ss in
      let here =
        run-lines Handler Shared handle accepts regex_match ss es i req s srv t order pieces line hs
          waits goes in
      let done =
        step-handled i req body t r m key h res log shared here parser text wf found known answer in
      let again =
        step-again i (with_answer i done.0 (log, shared) t)
          (get_elem?-update i answering (ready req true body) t.sessions here) in
      (done.0, again.0, done.1, again.1, again.2)
