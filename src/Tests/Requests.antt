-- ===== src/Tests/Requests.antt =====
-- The theorems on requests at concrete inputs.
use cs130capstoneproject.Base.{◌≡◌, ◌↔◌, ℕ, refl, none, some, [], ◌∷◌, ◌++◌, arith, length}
use cs130capstoneproject.Base.Bytes.{codes}
use cs130capstoneproject.RequestParser.Request.{reset_request}
use cs130capstoneproject.RequestParser.Path.{infer_path}
use cs130capstoneproject.RequestParser.State.{
  State, version_second_t, good, undefined, Parser, fresh,
}
use cs130capstoneproject.RequestParser.Step.{next_char_handler}
use cs130capstoneproject.RequestParser.Parse.{parse}
use cs130capstoneproject.RequestParser.Print.{Message, print, IsWellFormed}
use cs130capstoneproject.RequestParser.RoundTrip.Whole.{message_request, parse-print}
use cs130capstoneproject.RequestParser.Totality.{HasBlankUri, parse-none_iff}
use cs130capstoneproject.RequestParser.Chunks.{continue, parse-append}
use cs130capstoneproject.RequestParser.Content.{announced, parse-content}
use cs130capstoneproject.RequestParser.PathSafety.{IsInside, infer_path-IsInside}
use cs130capstoneproject.RequestParser.Safety.{
  IsSound, Faults, next_char_handler-none_iff, next_char_handler-IsSound,
}
use cs130capstoneproject.RequestParser.Raw.{set_uri, words, set_uri-words}
use cs130capstoneproject.Tests.RequestParserRuns.{post_text, post_request, runs, run_post}

abbrev pub post_message : Message
post_message = record {
  method = codes "POST";
  uri = codes "/a%20b";
  major = codes "1";
  minor = codes "1";
  headers = (codes "Host", codes "x") ∷ (codes "Content-Length", codes "3") ∷ [];
  content = codes "abc";
}

pub post_message-IsWellFormed : IsWellFormed post_message
unfolding runs
post_message-IsWellFormed = record {
  method = ground arith;
  uri = ground arith;
  major = ground arith;
  minor = ground arith;
  headers = ground arith;
  content = refl;
}

parse-print_example :
    (r' : ℕ) × (parse (fresh 0) reset_request (print post_message (codes "GET"))
      ≡ some (record {
        result = good;
        unread = codes "GET";
        parser = fresh r';
        request = message_request post_message;
      }))
parse-print_example =
    parse-print 0 reset_request post_message (codes "GET") post_message-IsWellFormed

parse-none_iff_example :
    (parse (fresh 0) reset_request (codes "GET  HTTP/1.1") ≡ none)
    ↔ HasBlankUri (codes "GET  HTTP/1.1")
parse-none_iff_example = parse-none_iff 0 reset_request (codes "GET  HTTP/1.1")

parse-append_example :
    parse (fresh 0) reset_request (codes "GET /a HT" ++ codes "TP/1.1\r\n\r\n")
    ≡ continue (codes "TP/1.1\r\n\r\n") (parse (fresh 0) reset_request (codes "GET /a HT"))
parse-append_example =
    parse-append (fresh 0) reset_request (codes "GET /a HT") (codes "TP/1.1\r\n\r\n")

parse-content_example : length post_request.body ≡ announced post_request
parse-content_example = parse-content 0 reset_request post_text _ run_post refl

infer_path_run : infer_path [] (codes "/%61/") ≡ some (codes "/a/index.html")
unfolding runs
infer_path_run = refl

infer_path-IsInside_example : IsInside (codes "/a/index.html")
infer_path-IsInside_example =
    infer_path-IsInside [] (codes "/%61/") (codes "/a/index.html") infer_path_run

next_char_handler-none_iff_example :
    (next_char_handler (fresh 0) b'G' ≡ none) ↔ Faults (fresh 0).state (fresh 0) b'G'
next_char_handler-none_iff_example = next_char_handler-none_iff (fresh 0) b'G' refl

abbrev after_letter : Parser
after_letter = record (fresh 0) {
  state = State.method;
  method = codes "G";
  raw_request = codes "G";
}

letter_run : next_char_handler (fresh 0) b'G' ≡ some (undefined, after_letter)
unfolding runs
letter_run = refl

next_char_handler-IsSound_example : IsSound after_letter
next_char_handler-IsSound_example =
    next_char_handler-IsSound (fresh 0) b'G' after_letter refl letter_run

-- A parser that has read the beginning of a request.
abbrev begun : Parser
begun = record (fresh 0) {
  state = version_second_t;
  raw_request = codes "GET /a HT";
  path = codes "/a";
  method = codes "GET";
  uri = codes "/a";
  version = codes "HT";
}

begun-run :
    parse (fresh 0) reset_request (codes "GET /a HT")
    ≡ some (record { result = undefined; unread = []; parser = begun; request = reset_request })
unfolding runs
begun-run = refl

set_uri-words_example :
    ((set_uri (codes "/b/c") begun).uri ≡ codes "/b/c")
    × ((set_uri (codes "/b/c") begun).raw_request ≡ words (codes "GET") (codes "/b/c") (codes "HT"))
set_uri-words_example =
    set_uri-words (fresh 0) reset_request (codes "GET") (codes "/a") (codes "/b/c") (codes "HT") _
      refl (ground arith) (ground arith) begun-run refl
