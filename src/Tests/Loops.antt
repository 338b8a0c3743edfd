-- ===== src/Tests/Loops.antt =====
-- The theorems on the sessions of a server at concrete inputs.
use cs130capstoneproject.Base.{
  zero, suc, ap, length, none, ℕ, ◌≡◌, refl, true, false, some, List, [], ◌∷◌, ◌++◌, map, arith,
}
use cs130capstoneproject.Base.Bytes.{Bytes, codes, equal, starts_with, find}
use cs130capstoneproject.Base.Map.{lookup}
use cs130capstoneproject.RequestParser.Request.{get, reset_request}
use cs130capstoneproject.RequestParser.State.{fresh}
use cs130capstoneproject.RequestParser.Print.{print}
use cs130capstoneproject.RequestParser.RoundTrip.Whole.{message_request}
use cs130capstoneproject.Http.Utils.{crlf, complete, check_method}
use cs130capstoneproject.Handlers.Echo.{handle_echo}
use cs130capstoneproject.Dispatcher.{dispatch}
use cs130capstoneproject.Logging
use cs130capstoneproject.Logging.{initial}
use cs130capstoneproject.Session.Routing.{quoted}
use cs130capstoneproject.Session.Checks.{
  check_header, check_request_line, check_request, check_headers,
}
use cs130capstoneproject.Session.Reading.{write, clear, read_some, handle_read}
use cs130capstoneproject.Session.Buffer.{
  IsText, c_string, overwrite, max_length, cleared, length-nulls,
}
use cs130capstoneproject.Session.Assembly.{read_event-line}
use cs130capstoneproject.RequestParser.State.{Parser, undefined, method}
use cs130capstoneproject.RequestParser.Parse.{parse}
use cs130capstoneproject.Session.Reading.{bad_request}
use cs130capstoneproject.Handlers.Echo.{get_response, answer}
use cs130capstoneproject.Dispatcher.{async_write}
use cs130capstoneproject.Session.Tasks.{World, good_request}
use cs130capstoneproject.Session.Leak.{good_request-refused_text}
use cs130capstoneproject.Tests.RequestParserRuns.{runs}
use cs130capstoneproject.Server.Sessions.{
  Server, IsPossible, IsStarted, Reach, event, start, later, step, world_of,
}
use cs130capstoneproject.Server.Sessions.State.{
  Memory, Session, new_session, Event, accepted, accept_failed, was_read, was_written,
}
use cs130capstoneproject.Server.Sessions.Sound.{AllSound, Reach-Sound}
use cs130capstoneproject.Server.Sessions.Accepting.{waiting, Reach-waiting}
use cs130capstoneproject.Server.Sessions.Interleaved.{
  ready, Interleaved, none_left, own, other, session_at, step-overrun, step-own, run,
}
use cs130capstoneproject.Server.Sessions.Served.{run-handled, with_answer}
use cs130capstoneproject.Tests.Sessions.{
  echo, all_bytes, world, posts, posts-route, get_message, get_message-IsWellFormed, first_line,
  host_line, get_text, matches,
}

abbrev TestServer : Type 0
TestServer = Server (Unit {0}) (Unit {0}) echo all_bytes matches

abbrev pub memory : Memory
memory = record { method = get; array = cleared }

abbrev server_with : List Session → TestServer
server_with sessions = record {
  handlers = posts;
  shared = ([], tt);
  parser = fresh 0;
  attributes = initial;
  sessions = sessions;
}

abbrev started_server : TestServer
started_server = server_with (new_session memory ∷ [])

started_server-IsStarted : IsStarted (Unit {0}) (Unit {0}) echo all_bytes matches started_server
started_server-IsStarted = record { memory = memory; fits = length-nulls max_length; waits = refl }

abbrev accept : Event
accept = accepted 0 (some (codes "127.0.0.1")) memory

accept-IsPossible : IsPossible (Unit {0}) (Unit {0}) echo all_bytes matches accept started_server
accept-IsPossible = record {
  session = new_session memory;
  stands = refl;
  waits = refl;
  fits = length-nulls max_length;
}

abbrev two_sessions : List Session
two_sessions = ready reset_request false [] ∷ new_session memory ∷ []

abbrev with_client : TestServer
with_client = record (server_with two_sessions) {
  attributes = record initial { client_ip = codes "[IP: 127.0.0.1]" };
}

accept-run :
    step (Unit {0}) (Unit {0}) echo all_bytes matches accept started_server
    ≡ some (read_some ∷ [], with_client)
unfolding step Logging.set_ip
accept-run = refl

with_client-Reach : Reach (Unit {0}) (Unit {0}) echo all_bytes matches started_server with_client
with_client-Reach = later start (event accept accept-IsPossible accept-run)

abbrev line_event : Event
line_event = was_read 0 (first_line ++ crlf)

line-IsPossible : IsPossible (Unit {0}) (Unit {0}) echo all_bytes matches line_event with_client
line-IsPossible = record {
  session = ready reset_request false [];
  stands = refl;
  waits = refl;
  fits = omega arith;
}

-- The server behind the request line, with the step to it and the session.
with_line :
    (t : TestServer) × (step (Unit {0}) (Unit {0}) echo all_bytes matches line_event with_client
      ≡ some (clear ∷ read_some ∷ [], t))
    × (session_at (Unit {0}) (Unit {0}) echo all_bytes matches 0 t
        ≡ some (ready reset_request true (first_line ++ crlf)))
unfolding equal check_request_line check_method find starts_with
with_line =
    step-own (Unit {0}) (Unit {0}) echo all_bytes matches 0 reset_request false []
      (first_line ++ crlf) with_client refl (ground arith, omega arith)
      (read_event-line (Unit {0}) (Unit {0}) echo all_bytes matches first_line
        (world_of (Unit {0}) (Unit {0}) echo all_bytes matches with_client
          (ready reset_request false []))
        refl (ground arith, refl, refl))

with_line-Reach : Reach (Unit {0}) (Unit {0}) echo all_bytes matches started_server with_line.0
with_line-Reach = later with_client-Reach (event line_event line-IsPossible with_line.1)

Reach-Sound_example : AllSound (Unit {0}) (Unit {0}) echo all_bytes matches with_line.0
Reach-Sound_example =
    Reach-Sound (Unit {0}) (Unit {0}) echo all_bytes matches started_server-IsStarted
      with_line-Reach

Reach-waiting_example : waiting with_line.0.sessions ≡ 1
Reach-waiting_example =
    Reach-waiting (Unit {0}) (Unit {0}) echo all_bytes matches started_server-IsStarted
      with_line-Reach

-- The events of a request whose header comes behind an accept that failed.
abbrev test_events : List Event
test_events = was_read 0 (first_line ++ crlf) ∷ accept_failed 1 memory ∷ was_read 0 host_line ∷ []

abbrev get_head : Bytes
get_head = (first_line ++ crlf) ++ (host_line ++ [])

abbrev before_end : TestServer
before_end = server_with (
    ready reset_request true get_head
    ∷ record (new_session memory) { operations = []; alive = false }
    ∷ new_session memory
    ∷ [])

test_events-run :
    run (Unit {0}) (Unit {0}) echo all_bytes matches test_events (server_with two_sessions)
    ≡ some before_end
unfolding run step handle_read c_string overwrite complete equal check_request check_headers
    check_request_line check_header check_method find starts_with Logging.reset_ip
test_events-run = refl

test_events-Interleaved : Interleaved 0 ((first_line ++ crlf) ∷ host_line ∷ []) test_events
test_events-Interleaved =
    own (first_line ++ crlf) (other (accept_failed 1 memory) (λ e. cc) (own host_line none_left))

run-handled_example :
    (r' : ℕ) × (v : TestServer) × (step
        (Unit {0})
        (Unit {0})
        echo
        all_bytes
        matches
        (was_read 0 crlf)
        before_end
      ≡ some (
        map write (dispatch all_bytes (handle_echo (message_request get_message) []).0),
        with_answer
            (Unit {0})
            (Unit {0})
            echo
            all_bytes
            matches
            0
            r'
            ((handle_echo (message_request get_message) []).1, tt)
            before_end,
      ))
    × (step (Unit {0}) (Unit {0}) echo all_bytes matches (was_written 0) (
          with_answer
            (Unit {0})
            (Unit {0})
            echo
            all_bytes
            matches
            0
            r'
            ((handle_echo (message_request get_message) []).1, tt)
            before_end)
        ≡ some (read_some ∷ [], v))
    × (session_at (Unit {0}) (Unit {0}) echo all_bytes matches 0 v
        ≡ some (ready reset_request false []))
unfolding equal check_request_line check_header check_method find starts_with lookup
run-handled_example =
    run-handled (Unit {0}) (Unit {0}) echo all_bytes matches 0 reset_request first_line
      (host_line ∷ []) test_events (server_with two_sessions) before_end 0 get_message
      (quoted (codes "/a%20b")) tt _ _ _ refl test_events-Interleaved test_events-run
      ((ground arith, omega arith), ((ground arith, omega arith), tt)) (ground arith, refl, refl)
      ((refl, refl, refl), tt) get_text get_message-IsWellFormed refl posts-route refl refl

-- A text that is no request, which the parser takes for the beginning of a method.
abbrev hello : World (Unit {0}) (Unit {0}) echo all_bytes
hello = record (world posts) { http_body = codes "hello" }

abbrev hello_parser : Parser
hello_parser = record (fresh 0) {
  state = method;
  raw_request = codes "hello";
  method = codes "hello";
}

hello-run :
    parse (fresh 0) reset_request (codes "hello")
    ≡ some
        (record { result = undefined; unread = []; parser = hello_parser; request = reset_request })
unfolding runs
hello-run = refl

good_request-refused_text_example :
    good_request
      (Unit {0})
      (Unit {0})
      echo
      all_bytes
      (print get_message [])
      (record (world posts) { parser = hello_parser })
    ≡ good_request
        (Unit {0})
        (Unit {0})
        echo
        all_bytes
        (codes "hello" ++ print get_message [])
        (world posts)
unfolding bad_request runs get_response
good_request-refused_text_example =
    good_request-refused_text (Unit {0}) (Unit {0}) echo all_bytes matches hello
      (record (world posts) { parser = hello_parser })
      (record (world posts) { parser = hello_parser }) _
      (write (async_write (answer (codes "400 Bad Request") (codes "hello"))) ∷ [])
      (print get_message []) hello-run refl refl refl

-- Bytes that fill the array.
abbrev filling : ℕ → Bytes
filling zero = []
filling (suc n) = b'a' ∷ filling n

length-filling : (n : ℕ) → length (filling n) ≡ n
length-filling zero = refl
length-filling (suc n) = ap suc (length-filling n)

filling-IsText : (n : ℕ) → IsText (filling n)
filling-IsText zero = tt
filling-IsText (suc n) = (omega arith, filling-IsText n)

step-overrun_example :
    step (Unit {0}) (Unit {0}) echo all_bytes matches (was_read 0 (filling max_length)) with_client
    ≡ none
step-overrun_example =
    step-overrun (Unit {0}) (Unit {0}) echo all_bytes matches 0 (ready reset_request false [])
      (filling max_length) with_client refl (length-nulls max_length) (filling-IsText max_length)
      (length-filling max_length)
