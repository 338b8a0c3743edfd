-- ===== src/Session/Reading.antt =====
-- `session::handle_read`, `long_string_handler`, `handle_write` and `bad_request`. An event has the text
-- in the buffer, up to its first null, and the number of bytes that were read.
use cs130capstoneproject.Base.{
  ℕ, Bool, true, false, not, ◌&&◌, ◌||◌, Option, none, some, List, [], ◌∷◌, ◌++◌, ◌==◌, map,
  if◌then◌else◌,
}
use cs130capstoneproject.Base.Bytes.{Bytes}
use cs130capstoneproject.RequestParser.Request.{Request, reset_request}
use cs130capstoneproject.RequestParser.Parse.{Parsed, parse}
use cs130capstoneproject.Http.Response.{Response}
use cs130capstoneproject.Http.Utils.{complete, filter_crlf}
use cs130capstoneproject.Handlers.Log.{Log}
use cs130capstoneproject.Handlers.Echo.{get_response}
use cs130capstoneproject.Dispatcher.{Write, async_write}
use cs130capstoneproject.Session.Checks.{
  check_header, check_request_line, check_request, knows_method,
}
use cs130capstoneproject.Session.Tasks

-- What a session does: it writes, it clears `data_`, it starts another read, or it is deleted.
pub data Action : Type 0 where
  write : Write → Action
  clear read_some deleted : Action

module _ (Handler : Type 0) (Shared : Type 0)
    (handle : Handler → Request → Log × Shared → Option (Response × Log × Shared))
    (accepts : ℕ → ℕ → ℕ) (regex_match : Bytes → Bytes → Bool) where
  abbrev pub World : Type 0
  World = Tasks.World Handler Shared handle accepts

  -- `none` is undefined behaviour, or an exception that is not caught.
  abbrev pub Handled : Type 0
  Handled = Option (List Action × World)

  abbrev pub written : Option (Bytes × List Write × World) → Handled
  written none = none
  written (some (status, writes, w)) = some (map write writes, w)

  -- `good_request(http_body)`
  abbrev pub good : World → Handled
  good w = written (Tasks.good_request Handler Shared handle accepts w.http_body w)

  abbrev pub echoed : World → Option Parsed → Option Bytes → Handled
  echoed w none answer = none
  echoed w (some d) none = none
  echoed w (some d) (some answer) = some (
    write (async_write answer) ∷ [],
    record w { parser = d.parser; request = reset_request; http_body = [] },
  )

  -- `bad_request(http_body)`; the thread that it starts sends the text back.
  unfoldable pub bad_request : World → Handled
  bad_request w = echoed w (parse w.parser w.request w.http_body) (get_response w.http_body false)

  -- `handle_write` without an error: the next read is started.
  abbrev pub go_on : World → Handled
  go_on w = some (read_some ∷ [], w)

  -- `memset(data_, ...)` and `handle_write`
  abbrev pub clear_and_go_on : World → Handled
  clear_and_go_on w = some (clear ∷ read_some ∷ [], w)

  abbrev pub add_text : Bytes → World → World
  add_text request w = record w { http_body = w.http_body ++ request }

  -- A line of a request, the first or a later one.
  abbrev pub read_line : Bytes → World → Handled
  read_line request w =
      if check_request_line regex_match request
      then (if knows_method request
          then clear_and_go_on (record w { request_start = true })
          else bad_request (record w { request_start = false }))
      else if check_header regex_match request
      then clear_and_go_on (record w { request_start = true })
      else bad_request (record w { request_start = false })

  -- A text that is no request in one.
  abbrev pub read_part : Bytes → ℕ → World → Handled
  read_part request n w =
      if w.request_start && complete request n
      then good (record (add_text request w) { request_start = false })
      else if w.request_start || check_request_line regex_match request
      then read_line request (add_text request w)
      else if not w.request_start && (filter_crlf request == 0)
      then go_on w
      else bad_request (add_text request w)

  abbrev pub read_text : Bytes → ℕ → World → Option Bool → Handled
  read_text request n w none = none
  read_text request n w (some whole) =
      if whole then good (add_text request w) else read_part request n w

  -- `handle_write`: with an error the session is deleted.
  abbrev pub handle_write : Bool → World → Handled
  handle_write true w = some (deleted ∷ [], w)
  handle_write false w = go_on w

  -- `handle_read`: with an error the session is deleted.
  unfoldable pub handle_read : Bool → Bytes → ℕ → World → Handled
  handle_read true request n w = some (deleted ∷ [], w)
  handle_read false request n w =
      if not w.request_start && not (complete request n)
      then read_text request n w (check_request regex_match request)
      else read_part request n w
