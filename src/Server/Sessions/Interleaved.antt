-- ===== src/Server/Sessions/Interleaved.antt =====
-- A request that a client sends in pieces, while other sessions go on.
use cs130capstoneproject.Base.{
  Bool-cases, inl, inr, ℕ, ◌<◌, ◌≡◌, ◌≢◌, refl, ap, ◌∙◌, sym, Bool, true, false, Option, none, some,
  List, [], ◌∷◌, ◌++◌, length, update, All, append_assoc, append-nil, get_elem?-update,
  Option-cases,
}
use mathlib.Core.Path.{subst}
use mathlib.Core.Option.{some_inj}
use cs130capstoneproject.Base.Bytes.{Bytes}
use cs130capstoneproject.RequestParser.Request.{Request}
use cs130capstoneproject.Http.Response.{Response}
use cs130capstoneproject.Http.Utils.{crlf}
use cs130capstoneproject.Handlers.Log.{Log}
use cs130capstoneproject.Session.Tasks
use cs130capstoneproject.Session.Reading.{Action, clear, read_some, handle_read}
use cs130capstoneproject.Session.Buffer.{
  max_length, cleared, overwrite, IsText, c_string-overwrite, c_string-overrun,
}
use cs130capstoneproject.Session.Assembly
use cs130capstoneproject.Session.Assembly.{read_event-header, read_event-line, read_event-end}
use cs130capstoneproject.Server.Sessions
use cs130capstoneproject.Server.Sessions.State.{reading, Session, Event, was_read, session_of}
use cs130capstoneproject.Server.Sessions.Frame
use cs130capstoneproject.Server.Sessions.Frame.{step-Keeps}

-- A session that waits for what the client sends, with nothing in its array.
abbrev pub ready : Request → Bool → Bytes → Session
ready request request_start http_body = record {
  request = request;
  request_start = request_start;
  http_body = http_body;
  array = cleared;
  operations = reading ∷ [];
  alive = true;
}

-- Events in which the session `i` reads some texts, in order, among any events of other sessions.
pub data Interleaved (i : ℕ) : List Bytes → List Event → Type 0 where
  none_left : Interleaved i [] []
  own :
      (s : Bytes) {ss : List Bytes} {es : List Event}
      → Interleaved i ss es
      → Interleaved i (s ∷ ss) (was_read i s ∷ es)
  other :
      (e : Event) {ss : List Bytes} {es : List Event}
      → session_of e ≢ i
      → Interleaved i ss es
      → Interleaved i ss (e ∷ es)

-- A text that fits into the array, with a null behind it.
abbrev pub IsPiece : Bytes → Type 0
IsPiece s = IsText s × (length s < max_length)

module _ (Handler : Type 0) (Shared : Type 0)
    (handle : Handler → Request → Log × Shared → Option (Response × Log × Shared))
    (accepts : ℕ → ℕ → ℕ) (regex_match : Bytes → Bytes → Bool) where
  abbrev Server : Type 0
  Server = Sessions.Server Handler Shared handle accepts regex_match

  abbrev Stepped : Type 0
  Stepped = Option (List Action × Server)

  abbrev World : Type 0
  World = Tasks.World Handler Shared handle accepts

  abbrev step : Event → Server → Stepped
  step = Sessions.step Handler Shared handle accepts regex_match

  abbrev world_of : Server → Session → World
  world_of = Sessions.world_of Handler Shared handle accepts regex_match

  abbrev pub session_at : ℕ → Server → Option Session
  session_at = Frame.session_at Handler Shared handle accepts regex_match

  abbrev read_event : Bytes → World → Option (List Action × World)
  read_event s w = handle_read Handler Shared handle accepts regex_match false s (length s) w

  abbrev pub and_then : (Server → Option Server) → Stepped → Option Server
  and_then k none = none
  and_then k (some (actions, t)) = k t

  -- The server after some events, if it goes on.
  unfoldable pub run : List Event → Server → Option Server
  run [] s = some s
  run (e ∷ es) s = and_then (run es) (step e s)

  -- What a session that is ready does with a text is what `handle_read` does with it.
  pub step-ready :
      (i : ℕ) (req : Request) (b : Bool) (body s : Bytes) (srv : Server)
      → session_at i srv ≡ some (ready req b body)
      → IsPiece s
      → step (was_read i s) srv
        ≡ Sessions.settle Handler Shared handle accepts regex_match i
            (record (ready req b body) { array = overwrite s cleared; operations = [] })
            srv
            (read_event s (world_of srv (ready req b body)))
  unfolding Sessions.step
  step-ready i req b body s srv here (text, short) = rw (here, c_string-overwrite s text short) refl

  -- A session that waits again, with a text added to the ones before.
  pub step-own :
      (i : ℕ) (req : Request) (b : Bool) (body s : Bytes) (srv : Server)
      → session_at i srv ≡ some (ready req b body)
      → IsPiece s
      → read_event s (world_of srv (ready req b body))
        ≡ some (
          clear ∷ read_some ∷ [],
          Assembly.started Handler Shared handle accepts regex_match s
              (world_of srv (ready req b body)),
        )
      → (t : Server) × (step (was_read i s) srv ≡ some (clear ∷ read_some ∷ [], t))
        × (session_at i t ≡ some (ready req true (body ++ s)))
  step-own i req b body s srv here piece h = (
    record srv { sessions = update i (ready req true (body ++ s)) srv.sessions },
    step-ready i req b body s srv here piece ∙ rw h refl,
    get_elem?-update i (ready req true (body ++ s)) (ready req b body) srv.sessions here,
  )

  run-other :
      (i : ℕ) (c : Session) (e : Event) (es : List Event) (srv t : Server)
      → session_of e ≢ i
      → session_at i srv ≡ some c
      → run (e ∷ es) srv ≡ some t
      → (u : Server) × (session_at i u ≡ some c) × (run es u ≡ some t)
  unfolding run
  run-other i c e es srv t ne here h =
      let keeps = step-Keeps Handler Shared handle accepts regex_match e i c srv ne here in
      elim (Option-cases (step e srv)) [
        | inl ends ↦ cc (rw ends at h)
        | inr ((actions, u), goes) ↦ (u, rw goes at keeps, rw goes at h)
      ]

  abbrev IsHeaderLine : Bytes → Type 0
  IsHeaderLine = Assembly.IsHeaderLine Handler Shared handle accepts regex_match

  abbrev IsRequestLine : Bytes → Type 0
  IsRequestLine = Assembly.IsRequestLine Handler Shared handle accepts regex_match

  abbrev joined : List Bytes → Bytes
  joined = Assembly.joined Handler Shared handle accepts regex_match

  run-headers :
      (ss : List Bytes) (es : List Event) (i : ℕ) (req : Request) (body : Bytes) (srv t : Server)
      → Interleaved i ss es
      → All IsPiece ss
      → All IsHeaderLine ss
      → session_at i srv ≡ some (ready req true body)
      → run es srv ≡ some t
      → session_at i t ≡ some (ready req true (body ++ joined ss))
  unfolding run
  run-headers [] [] i req body srv t none_left pieces hs here h =
      let same = subst (λ u. session_at i u ≡ some (ready req true body)) (some_inj.0 h) here in
      same ∙ ap (λ text. some (ready req true text)) (sym (append-nil body))
  run-headers (s ∷ ss) [] i req body srv t empty pieces hs here h = elim empty [ ]
  run-headers (s ∷ ss) (_ ∷ es) i req body srv t (own _ between) (piece, pieces) (line, hs) here h =
      let done = step-own i req true body s srv here piece (
        read_event-header Handler Shared handle accepts regex_match s
          (world_of srv (ready req true body)) refl line) in
      run-headers ss es i req (body ++ s) done.0 t between pieces hs done.2 (rw done.1 at h)
      ∙ ap (λ text. some (ready req true text)) (append_assoc body s (joined ss))
  run-headers ss (_ ∷ es) i req body srv t (other e ne between) pieces hs here h =
      let next = run-other i (ready req true body) e es srv t ne here h in
      run-headers ss es i req body next.0 t between pieces hs next.1 next.2

  pub run-lines :
      (ss : List Bytes) (es : List Event) (i : ℕ) (req : Request) (s : Bytes) (srv t : Server)
      → Interleaved i ((s ++ crlf) ∷ ss) es
      → All IsPiece ((s ++ crlf) ∷ ss)
      → IsRequestLine s
      → All IsHeaderLine ss
      → session_at i srv ≡ some (ready req false [])
      → run es srv ≡ some t
      → session_at i t ≡ some (ready req true ((s ++ crlf) ++ joined ss))
  unfolding run
  run-lines ss [] i req s srv t empty pieces line hs here h = elim empty [ ]
  run-lines ss (_ ∷ es) i req s srv t (own _ between) (piece, pieces) line hs here h =
      let done = step-own i req false [] (s ++ crlf) srv here piece (
        read_event-line Handler Shared handle accepts regex_match s
          (world_of srv (ready req false [])) refl line) in
      run-headers ss es i req (s ++ crlf) done.0 t between pieces hs done.2 (rw done.1 at h)
  run-lines ss (_ ∷ es) i req s srv t (other e ne between) pieces line hs here h =
      let next = run-other i (ready req false []) e es srv t ne here h in
      run-lines ss es i req s next.0 t between pieces line hs next.1 next.2

  -- A read of 1024 bytes without a null, to a session that waits for one with an array of its size, is
  -- undefined behaviour, whatever the session has read before: the text is read behind its array.
  pub step-overrun :
      (i : ℕ) (c : Session) (s : Bytes) (srv : Server)
      → session_at i srv ≡ some c
      → length c.array ≡ max_length
      → IsText s
      → length s ≡ max_length
      → step (was_read i s) srv ≡ none
  unfolding Sessions.step
  step-overrun i c s srv here size text full = elim (Bool-cases c.alive) [
    | inl alive ↦ rw (here, alive, c_string-overrun s c.array text (full ∙ sym size)) refl
    | inr dead ↦ rw (here, dead) refl
  ]
