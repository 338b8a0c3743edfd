-- ===== src/Server/Sessions/State.antt =====
-- A session with the operations that it has started on its socket, the events that complete them, and
-- what the actions of a handler do to it: include/session.h, and `send_response` of src/session.cc.
use cs130capstoneproject.Base.{ℕ, ◌≤◌, ◌≡◌, Bool, true, false, Option, List, [], ◌∷◌, length}
use cs130capstoneproject.Base.Bytes.{Bytes}
use cs130capstoneproject.RequestParser.Request.{Method, Request, reset_request}
use cs130capstoneproject.Dispatcher.{async_write, write_some}
use cs130capstoneproject.Session.Reading.{Action, write, clear, read_some, deleted}
use cs130capstoneproject.Session.Buffer.{max_length, cleared}

-- An operation that a socket has been asked for.
pub data Operation : Type 0 where
  accepting reading writing : Operation

abbrev pub same : Operation → Operation → Bool
same accepting accepting = true
same reading reading = true
same writing writing = true
same _ _ = false

-- The operations without one that has completed.
abbrev pub without : Operation → List Operation → List Operation
without o [] = []
without o (p ∷ ps) = elim (same o p) [ true ↦ ps | false ↦ p ∷ without o ps ]

abbrev pub waits_for : Operation → List Operation → Bool
waits_for o [] = false
waits_for o (p ∷ ps) = elim (same o p) [ true ↦ true | false ↦ waits_for o ps ]

-- A session: `alive` until it is deleted.
pub record Session : Type 0 where
  pub request : Request
  pub request_start : Bool
  pub http_body : Bytes
  pub array : Bytes
  pub operations : List Operation
  pub alive : Bool

-- What a new session has in the members that its constructor does not initialise.
pub record Memory : Type 0 where
  pub method : Method
  pub array : Bytes

-- `session::session`, and the accept that `start_accept` starts for it
abbrev pub new_session : Memory → Session
new_session memory = record {
  request = record reset_request { method = memory.method };
  request_start = false;
  http_body = [];
  array = memory.array;
  operations = accepting ∷ [];
  alive = true;
}

-- An operation of a session has completed, without an error or with one. An accept gives the address
-- of the client, or none if `remote_endpoint` throws, and it finds memory for the next session.
pub data Event : Type 0 where
  accepted : ℕ → Option Bytes → Memory → Event
  accept_failed : ℕ → Memory → Event
  was_read : ℕ → Bytes → Event
  read_failed was_written write_failed : ℕ → Event

abbrev pub session_of : Event → ℕ
session_of (accepted i peer memory) = i
session_of (accept_failed i memory) = i
session_of (was_read i received) = i
session_of (read_failed i) = i
session_of (was_written i) = i
session_of (write_failed i) = i

abbrev pub completed : Event → Operation
completed (accepted i peer memory) = accepting
completed (accept_failed i memory) = accepting
completed (was_read i received) = reading
completed (read_failed i) = reading
completed (was_written i) = writing
completed (write_failed i) = writing

-- What an event brings fits into the array of a session.
abbrev pub Fits : Event → Type 0
Fits (accepted i peer memory) = length memory.array ≡ max_length
Fits (accept_failed i memory) = length memory.array ≡ max_length
Fits (was_read i received) = length received ≤ max_length
Fits _ = Unit

-- What an action does to the session. `send_response` clears the array and starts a write.
abbrev pub perform : Action → Session → Session
perform (write (async_write s)) c = record c {
  array = cleared;
  operations = writing ∷ c.operations;
}
perform (write (write_some s)) c = c
perform clear c = record c { array = cleared }
perform read_some c = record c { operations = reading ∷ c.operations }
perform deleted c = record c { alive = false }

abbrev pub perform_all : List Action → Session → Session
perform_all [] c = c
perform_all (a ∷ actions) c = perform_all actions (perform a c)
