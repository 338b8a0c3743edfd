-- ===== src/Tests/Delivered.antt =====
-- The delivery of a file, at a concrete input.
use cs130capstoneproject.Base.{
  ℕ, ◌≡◌, refl, inl, Bool, true, false, some, List, [], ◌∷◌, ◌++◌, arith, map, if◌then◌else◌,
}
use cs130capstoneproject.Base.Bytes.{Bytes, codes, equal, starts_with, find}
use cs130capstoneproject.RequestParser.Numbers.{skip_space}
use cs130capstoneproject.RequestParser.Request.{reset_request}
use cs130capstoneproject.RequestParser.State.{fresh}
use cs130capstoneproject.Http.Status
use cs130capstoneproject.Http.Response.{Response}
use cs130capstoneproject.Http.Utils.{crlf, complete, check_method}
use cs130capstoneproject.Handlers.Log.{add_record}
use cs130capstoneproject.Dispatcher.{dispatch}
use cs130capstoneproject.Logging
use cs130capstoneproject.Logging.{initial}
use cs130capstoneproject.Static.Kinds.{type_of, text, IsSentAs}
use cs130capstoneproject.Static.Names.{config_parser_iff}
use cs130capstoneproject.Session.Checks.{
  header_pattern, request_line_pattern, check_header, check_request_line, check_request,
  check_headers,
}
use cs130capstoneproject.Session.Reading.{write, read_some, handle_read}
use cs130capstoneproject.Session.Buffer.{c_string, overwrite}
use cs130capstoneproject.Server.Handlers.{Handler}
use cs130capstoneproject.Server.Serve.{Shared, serve, counted}
use cs130capstoneproject.Server.Sessions.{Server, step}
use cs130capstoneproject.Server.Sessions.State.{
  Session, new_session, Event, accept_failed, was_read, was_written,
}
use cs130capstoneproject.Server.Sessions.Interleaved.{
  ready, Interleaved, none_left, own, other, session_at, run,
}
use cs130capstoneproject.Server.Sessions.Served.{with_answer}
use cs130capstoneproject.Server.Delivered.{IsSent, IsFile, run-file}
use cs130capstoneproject.Server.Start.{no_handlers}
use cs130capstoneproject.Tests.RequestParserRuns.{runs}
use cs130capstoneproject.Tests.Sessions.{host_line}
use cs130capstoneproject.Tests.Loops.{memory}
use cs130capstoneproject.Tests.Servers.{
  echo_block, cache_block, all_bytes, file_registry, file_blocks-constructed, file_message,
  file_message-IsWellFormed, same_files, file-found, file-type,
}

abbrev file_line : Bytes
file_line = codes "GET /static/a.html HTTP/1.1"

-- A match of patterns on the two lines.
abbrev matches : Bytes → Bytes → Bool
matches line pattern =
    if equal pattern request_line_pattern
    then equal line (file_line ++ crlf)
    else if equal pattern header_pattern
    then equal line host_line
    else false

abbrev FileServer : Type 0
FileServer = Server Handler Shared (serve skip_space same_files) all_bytes matches

abbrev server_with : List Session → FileServer
server_with sessions = record {
  handlers = file_registry.handlers;
  shared = ([], record { roots = file_registry.roots; pages = []; requests = 0 });
  parser = fresh 0;
  attributes = initial;
  sessions = sessions;
}

abbrev file_events : List Event
file_events = was_read 0 (file_line ++ crlf) ∷ accept_failed 1 memory ∷ was_read 0 host_line ∷ []

abbrev two_sessions : FileServer
two_sessions = server_with (ready reset_request false [] ∷ new_session memory ∷ [])

abbrev before_end : FileServer
before_end = server_with (
    ready reset_request true ((file_line ++ crlf) ++ (host_line ++ []))
    ∷ record (new_session memory) { operations = []; alive = false }
    ∷ new_session memory
    ∷ [])

file_events-run :
    run Handler Shared (serve skip_space same_files) all_bytes matches file_events two_sessions
    ≡ some before_end
unfolding run step handle_read c_string overwrite complete equal check_request check_headers
    check_request_line check_header check_method find starts_with Logging.reset_ip
file_events-run = refl

file_events-Interleaved : Interleaved 0 ((file_line ++ crlf) ∷ host_line ∷ []) file_events
file_events-Interleaved =
    own (file_line ++ crlf) (other (accept_failed 1 memory) (λ e. cc) (own host_line none_left))

file_message-IsSent :
    IsSent skip_space skip_space same_files all_bytes matches file_message file_line
      (host_line ∷ [])
unfolding equal check_request_line check_header check_method find starts_with
file_message-IsSent = record {
  well_formed = file_message-IsWellFormed;
  pieces = ((ground arith, omega arith), ((ground arith, omega arith), tt));
  line = (ground arith, refl, refl);
  headers = ((refl, refl, refl), tt);
  text = refl;
}

before_end-IsFile :
    IsFile skip_space skip_space same_files all_bytes matches file_registry
      (cache_block ∷ [])
      (codes "/static")
      (codes "www")
      (codes "a.html")
      (codes "a\nb")
      before_end
      file_message
unfolding runs
before_end-IsFile = record {
  last = ((λ e. cc), tt);
  handlers = refl;
  roots = λ k. refl;
  method = inl refl;
  uri = refl;
  plain = ground arith;
  found = file-found;
  there = refl;
}

abbrev with_page : ℕ → FileServer
with_page n =
    with_answer Handler Shared (serve skip_space same_files) all_bytes matches 0 n
      (
        add_record (codes "/www/a.html") (codes "StaticHandler") Status.ok [],
        counted before_end.shared.1,
      )
      before_end

run-file_example :
    (res : Response) × (n' : ℕ) × (v : FileServer) × IsSentAs text (codes "a\nb") res
    × (step Handler Shared
          (serve skip_space same_files)
          all_bytes
          matches
          (was_read 0 crlf)
          before_end
        ≡ some (map write (dispatch all_bytes res), with_page n'))
    × (step Handler Shared
          (serve skip_space same_files)
          all_bytes
          matches
          (was_written 0)
          (with_page n')
        ≡ some (read_some ∷ [], v))
    × (session_at Handler Shared (serve skip_space same_files) all_bytes matches 0 v
        ≡ some (ready reset_request false []))
run-file_example =
    run-file skip_space skip_space same_files all_bytes matches (echo_block ∷ []) (cache_block ∷ [])
      (codes "/static") (codes "www") (codes "a.html") (codes "a\nb") no_handlers file_registry 0
      reset_request file_line (host_line ∷ []) file_events two_sessions before_end 0 file_message
      text file_blocks-constructed refl file_message-IsSent file_events-Interleaved file_events-run
      refl before_end-IsFile ((config_parser_iff file_message.uri (type_of text)).0 file-type)
      (omega arith)
