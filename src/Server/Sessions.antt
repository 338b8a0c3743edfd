-- ===== src/Server/Sessions.antt =====
-- The sessions of a server, with the operations that each has started on its socket, and what happens
-- when one of them completes: the handlers of src/server.cc and src/session.cc that the io_service
-- calls, one at a time. The operations that complete, and what they bring, come from outside.
pub mod State
pub mod Effects
pub mod Sound
pub mod Accepting
pub mod Frame
pub mod Interleaved
pub mod Served
use cs130capstoneproject.Base.{
  ℕ, zero, suc, ◌≤◌, ◌≡◌, Bool, true, false, Option, none, some, List, [], ◌∷◌, ◌++◌, length,
  get_elem?, update,
}
use cs130capstoneproject.Base.Bytes.{Bytes}
use cs130capstoneproject.RequestParser.Request.{Method, Request, reset_request}
use cs130capstoneproject.RequestParser.State.{Parser}
use cs130capstoneproject.Http.Response.{Response}
use cs130capstoneproject.Handlers.Log.{Log}
use cs130capstoneproject.Dispatcher.{Write, async_write, write_some}
use cs130capstoneproject.Logging.{Attributes, set_ip, reset_ip}
use cs130capstoneproject.Session.Tasks
use cs130capstoneproject.Session.Reading
use cs130capstoneproject.Session.Reading.{
  Action, write, clear, read_some, deleted, handle_read, handle_write,
}
use cs130capstoneproject.Session.Buffer.{max_length, cleared, overwrite, c_string}
use cs130capstoneproject.Server.Sessions.State.{
  Operation, accepting, reading, writing, same, without, waits_for, Session, Memory, new_session,
  Event, accepted, accept_failed, was_read, read_failed, was_written, write_failed, session_of,
  completed, Fits, perform, perform_all,
}

module _ (Handler : Type 0) (Shared : Type 0)
    (handle : Handler → Request → Log × Shared → Option (Response × Log × Shared))
    (accepts : ℕ → ℕ → ℕ) (regex_match : Bytes → Bytes → Bool) where
  abbrev pub World : Type 0
  World = Tasks.World Handler Shared handle accepts

  abbrev pub Handlers : Type 0
  Handlers = Tasks.Handlers Handler Shared handle accepts

  -- The server, with the parser and the attributes of the log, which are global. The path and the status
  -- in them are empty between two events: `good_request` and `bad_request` set them and reset them.
  pub record Server : Type 0 where
    pub handlers : Handlers
    pub shared : Log × Shared
    pub parser : Parser
    pub attributes : Attributes
    pub sessions : List Session

  -- What an event makes its session do, and the server afterwards; `none` is undefined behaviour, or
  -- an exception that ends the server.
  abbrev pub Stepped : Type 0
  Stepped = Option (List Action × Server)

  abbrev pub world_of : Server → Session → World
  world_of s c = record {
    handlers = s.handlers;
    shared = s.shared;
    parser = s.parser;
    request = c.request;
    request_start = c.request_start;
    http_body = c.http_body;
  }

  abbrev pub session_from : World → Session → Session
  session_from w c = record c {
    request = w.request;
    request_start = w.request_start;
    http_body = w.http_body;
  }

  abbrev pub put : ℕ → Session → World → Server → Server
  put i c w s = record s {
    handlers = w.handlers;
    shared = w.shared;
    parser = w.parser;
    sessions = update i c s.sessions;
  }

  -- The session and the server behind a handler of the session.
  abbrev pub settle :
      ℕ → Session → Server → Reading.Handled Handler Shared handle accepts regex_match → Stepped
  settle i c s none = none
  settle i c s (some (actions, w)) =
      some (actions, put i (perform_all actions (session_from w c)) w s)

  -- `std::string request(data_)` and the rest of `handle_read`
  abbrev pub read_array : ℕ → Session → Server → ℕ → Option Bytes → Stepped
  read_array i c s n none = none
  read_array i c s n (some request) =
      settle i c s
        (handle_read Handler Shared handle accepts regex_match false request n (world_of s c))

  -- `start_accept`
  abbrev pub start_accept : Memory → Server → Server
  start_accept memory s = record s { sessions = s.sessions ++ new_session memory ∷ [] }

  abbrev pub set_session : ℕ → Session → Server → Server
  set_session i c s = record s { sessions = update i c s.sessions }

  abbrev pub with_reset_ip : Stepped → Stepped
  with_reset_ip none = none
  with_reset_ip (some (actions, s)) =
      some (actions, record s { attributes = reset_ip s.attributes })

  -- The handler of an event, for its session `c`, whose operation has completed: `handle_accept`,
  -- `handle_read` and `handle_write`.
  abbrev pub handle_event : Event → Session → Server → Stepped
  handle_event (accepted i none memory) c s = none
  handle_event (accepted i (some peer) memory) c s = some (
    read_some ∷ [],
    start_accept memory
        (record (set_session i (perform read_some c) s) { attributes = set_ip peer s.attributes }),
  )
  handle_event (accept_failed i memory) c s = some (
    deleted ∷ [],
    start_accept memory
        (record (set_session i (perform deleted c) s) { attributes = reset_ip s.attributes }),
  )
  handle_event (was_read i received) c s =
      let array = overwrite received c.array in
      read_array i (record c { array = array }) s (length received) (c_string array)
  handle_event (read_failed i) c s = with_reset_ip (
      settle i c s (handle_read Handler Shared handle accepts regex_match true [] 0 (world_of s c)))
  handle_event (was_written i) c s =
      settle i c s (handle_write Handler Shared handle accepts regex_match false (world_of s c))
  handle_event (write_failed i) c s =
      with_reset_ip
        (settle i c s (handle_write Handler Shared handle accepts regex_match true (world_of s c)))

  -- A handler of a session that has been deleted, or that there is not, is undefined behaviour.
  abbrev pub step_of : Event → Server → Option Session → Stepped
  step_of e s none = none
  step_of e s (some c) = elim c.alive [
    | true ↦ handle_event e (record c { operations = without (completed e) c.operations }) s
    | false ↦ none
  ]

  unfoldable pub step : Event → Server → Stepped
  step e s = step_of e s (get_elem? s.sessions (session_of e))

  -- A session waits for the operation, and what completes it fits.
  pub record IsPossible (e : Event) (s : Server) : Type 0 where
    pub session : Session
    pub stands : get_elem? s.sessions (session_of e) ≡ some session
    pub waits : waits_for (completed e) session.operations ≡ true
    pub fits : Fits e

  pub data Step (s : Server) : Server → Type 0 where
    event :
        (e : Event) {actions : List Action} {t : Server}
        → IsPossible e s
        → step e s ≡ some (actions, t)
        → Step s t

  -- `main`, once the server is constructed
  pub record IsStarted (s : Server) : Type 0 where
    pub memory : Memory
    pub fits : length memory.array ≡ max_length
    pub waits : s.sessions ≡ new_session memory ∷ []

  pub data Reach (s : Server) : Server → Type 0 where
    start : Reach s s
    later : {t u : Server} → Reach s t → Step t u → Reach s u
