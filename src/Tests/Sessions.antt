-- ===== src/Tests/Sessions.antt =====
-- The theorems on sessions at concrete inputs.
use cs130capstoneproject.Base.{
  ◌≡◌, refl, ℕ, Bool, true, false, Option, none, some, [], ◌∷◌, ◌++◌, map, arith, if◌then◌else◌,
}
use cs130capstoneproject.Base.Bytes.{Bytes, codes, equal, starts_with, find, find_last}
use cs130capstoneproject.Base.Map.{Map, lookup}
use cs130capstoneproject.RequestParser.Request.{Request, reset_request}
use cs130capstoneproject.RequestParser.State.{fresh}
use cs130capstoneproject.RequestParser.Print.{Message, print, IsWellFormed}
use cs130capstoneproject.RequestParser.RoundTrip.Whole.{message_request}
use cs130capstoneproject.Http.Response.{Response}
use cs130capstoneproject.Handlers.Log.{Log}
use cs130capstoneproject.Handlers.Echo.{handle_echo}
use cs130capstoneproject.Handlers.Text.{handle_error}
use cs130capstoneproject.Dispatcher.{status_line, dispatch}
use cs130capstoneproject.Session.Routing.{quoted, first_key, search, route}
use cs130capstoneproject.Session.Nearest.{IsRoute, route-IsRoute}
use cs130capstoneproject.Session.Tasks.{World, good_request}
use cs130capstoneproject.Session.Answers.{good_request-handled, good_request-null}
use cs130capstoneproject.Http.Utils.{check_method, crlf}
use cs130capstoneproject.Session.Checks.{
  header_pattern, request_line_pattern, check_header, check_request_line,
}
use cs130capstoneproject.Session.Reading.{write, handle_read}
use cs130capstoneproject.Session.Assembly.{read_lines, read_lines-handled}
use cs130capstoneproject.Tests.RequestParserRuns.{runs}
use cs130capstoneproject.Tests.Requests.{post_message, post_message-IsWellFormed}

-- A server whose handlers all echo.
abbrev pub echo : Unit {0} → Request → Log × Unit {0} → Option (Response × Log × Unit {0})
echo h req (log, s) = some ((handle_echo req log).0, (handle_echo req log).1, s)

abbrev pub all_bytes : ℕ → ℕ → ℕ
all_bytes total left = left

abbrev pub world : Map (Option (Unit {0})) → World (Unit {0}) (Unit {0}) echo all_bytes
world handlers = record {
  handlers = handlers;
  shared = ([], tt);
  parser = fresh 0;
  request = reset_request;
  request_start = false;
  http_body = [];
}

abbrev pub posts : Map (Option (Unit {0}))
posts = (quoted (codes "/a%20b"), some tt) ∷ []

route-IsRoute_example : IsRoute posts (codes "/a%20b/c") (route posts (codes "/a%20b/c"))
unfolding starts_with
route-IsRoute_example = route-IsRoute posts (codes "/a%20b/c") refl

pub posts-route : route posts (codes "/a%20b") ≡ some (true, quoted (codes "/a%20b"))
unfolding route first_key search starts_with lookup equal
posts-route = refl

good_request-handled_example :
    (r' : ℕ) × (good_request
        (Unit {0})
        (Unit {0})
        echo
        all_bytes
        (print post_message [])
        (world posts)
      ≡ some (
        status_line (handle_echo (message_request post_message) []).0.code,
        dispatch all_bytes (handle_echo (message_request post_message) []).0,
        record (world posts) {
          parser = fresh r';
          shared = ((handle_echo (message_request post_message) []).1, tt);
          http_body = [];
          request = reset_request;
        },
      ))
unfolding lookup equal
good_request-handled_example =
    good_request-handled (Unit {0}) (Unit {0}) echo all_bytes (world posts) 0 post_message
      (quoted (codes "/a%20b")) tt _ _ _ refl post_message-IsWellFormed posts-route refl refl

abbrev root_message : Message
root_message = record post_message { uri = codes "/" }

root_message-IsWellFormed : IsWellFormed root_message
unfolding runs
root_message-IsWellFormed = record {
  method = post_message-IsWellFormed.method;
  uri = ground arith;
  major = post_message-IsWellFormed.major;
  minor = post_message-IsWellFormed.minor;
  headers = post_message-IsWellFormed.headers;
  content = refl;
}

no_handlers_run : route {V = Option (Unit {0})} [] (codes "/") ≡ some (false, quoted [])
unfolding route first_key search starts_with lookup equal find_last
no_handlers_run = refl

good_request-null_example :
    (w' : World (Unit {0}) (Unit {0}) echo all_bytes) × (good_request
        (Unit {0})
        (Unit {0})
        echo
        all_bytes
        (print root_message [])
        (world [])
      ≡ some (
        status_line (handle_error (message_request root_message) []).0.code,
        dispatch all_bytes (handle_error (message_request root_message) []).0,
        w',
      ))
    × (good_request (Unit {0}) (Unit {0}) echo all_bytes (print root_message []) w' ≡ none)
unfolding lookup
good_request-null_example =
    good_request-null (Unit {0}) (Unit {0}) echo all_bytes (world []) 0 root_message root_message
      (quoted []) refl root_message-IsWellFormed root_message-IsWellFormed refl no_handlers_run refl

abbrev pub get_message : Message
get_message = record post_message {
  method = codes "GET";
  headers = (codes "Host", codes "x") ∷ [];
  content = [];
}

pub get_message-IsWellFormed : IsWellFormed get_message
unfolding runs
get_message-IsWellFormed = record {
  method = ground arith;
  uri = ground arith;
  major = ground arith;
  minor = ground arith;
  headers = ground arith;
  content = refl;
}

abbrev pub first_line : Bytes
first_line = codes "GET /a%20b HTTP/1.1"

abbrev pub host_line : Bytes
host_line = codes "Host: x\r\n"

-- A match of patterns on the two lines.
abbrev pub matches : Bytes → Bytes → Bool
matches text pattern =
    if equal pattern request_line_pattern
    then equal text (first_line ++ crlf)
    else if equal pattern header_pattern
    then equal text host_line
    else false

pub get_text : ((first_line ++ crlf) ++ (host_line ++ [])) ++ crlf ≡ print get_message []
get_text = refl

read_lines-handled_example :
    (w' : World (Unit {0}) (Unit {0}) echo all_bytes) × (read_lines
        (Unit {0})
        (Unit {0})
        echo
        all_bytes
        matches
        ((first_line ++ crlf) ∷ host_line ∷ [])
        (world posts)
      ≡ some w')
    × ((r' : ℕ) × (handle_read (Unit {0}) (Unit {0}) echo all_bytes matches false crlf 2 w'
          ≡ some (
            map write (dispatch all_bytes (handle_echo (message_request get_message) []).0),
            record (world posts) {
              parser = fresh r';
              shared = ((handle_echo (message_request get_message) []).1, tt);
            },
          )))
unfolding equal check_request_line check_header check_method find starts_with lookup
read_lines-handled_example =
    read_lines-handled (Unit {0}) (Unit {0}) echo all_bytes matches (world posts) 0 get_message
      (quoted (codes "/a%20b")) tt _ _ _ first_line (host_line ∷ []) refl refl refl
      (ground arith, refl, refl) ((refl, refl, refl), tt) get_text get_message-IsWellFormed
      posts-route refl refl

abbrev brew_line : Bytes
brew_line = codes "BREW /pot HTTP/1.1"

abbrev matches_any : Bytes → Bytes → Bool
matches_any text pattern = equal pattern request_line_pattern
