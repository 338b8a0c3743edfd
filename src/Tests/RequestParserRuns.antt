-- ===== src/Tests/RequestParserRuns.antt =====
-- Runs of src/request_parser.cc.
use cs130capstoneproject.Base.{◌≡◌, refl, none, some, [], ◌∷◌}
use cs130capstoneproject.Base.Bytes.{Bytes, codes, find, equal, less, is_digit, starts_with}
use cs130capstoneproject.Base.Map.{insert, lookup, assign}
use cs130capstoneproject.RequestParser.Request.{post, Request, reset_request}
use cs130capstoneproject.RequestParser.Numbers.{stoull, read_hex}
use cs130capstoneproject.RequestParser.Path.{infer_path}
use cs130capstoneproject.RequestParser.State.{
  good, fresh, get_header_value, is_char, is_control_char, is_special_char, is_separator,
}
use cs130capstoneproject.RequestParser.Step.{next_char_handler, step_in, push_name, push_value}
use cs130capstoneproject.RequestParser.Parse.{parse, get_method, get_header_map}

abbrev pub post_text : Bytes
post_text = codes "POST /a%20b HTTP/1.1\r\nHost: x\r\nContent-Length: 3\r\n\r\nabcGET"

abbrev pub post_request : Request
post_request = record {
  method = post;
  uri = codes "/a%20b";
  headers = (codes "Content-Length", codes "3") ∷ (codes "Host", codes "x") ∷ [];
  body = codes "abc";
  version = codes "HTTP/1.1";
}

-- Unfolds what a run of the parser computes with.
unfoldable pub runs : Unit {0}
unfolding parse next_char_handler step_in push_name push_value get_method get_header_map insert
    lookup assign less infer_path find starts_with stoull is_digit get_header_value equal
    is_separator is_char is_control_char is_special_char read_hex
runs = tt

pub run_post :
    parse (fresh 0) reset_request post_text
    ≡ some
        (record { result = good; unread = codes "GET"; parser = fresh 0; request = post_request })
unfolding runs
run_post = refl

-- A method, two spaces: the path is empty when its last byte is read.
run_double_space : parse (fresh 0) reset_request (codes "GET  HTTP/1.1\r\n") ≡ none
unfolding runs
run_double_space = refl
