-- ===== src/Handlers/Echo.antt =====
-- src/echo_handler.cc, and `Utils::getContent` of src/utils.cc, which only it calls.
use cs130capstoneproject.Base.{
  ℕ, suc, ◌-◌, Bool, true, false, Option, none, some, [], ◌∷◌, ◌++◌, length, take,
}
use cs130capstoneproject.Base.Bytes.{Bytes, codes, find, find_last, substr}
use cs130capstoneproject.RequestParser.Request.{Request}
use cs130capstoneproject.Http.Decimal.{to_string}
use cs130capstoneproject.Http.Status
use cs130capstoneproject.Http.Response.{Response}
use cs130capstoneproject.Http.Utils.{
  crlf, format_status, format_header, format_end, url_decode, plain_text_response,
}
use cs130capstoneproject.Handlers.Log.{Log, add_record}

-- `find_last_of("/") + 1`: one behind `npos` is 0
abbrev after : Option ℕ → ℕ
after none = 0
after (some i) = suc i

unfoldable pub get_echo_body : Bytes → Bytes
get_echo_body uri = substr uri (after (find_last b'/' uri))

-- `EchoHandler::handleRequest`
unfoldable pub handle_echo : Request → Log → Response × Log
handle_echo req log = (
  plain_text_response (get_echo_body req.uri) Status.ok,
  add_record req.uri (codes "EchoHandler") Status.ok log,
)

-- substr(0, n), where `npos` takes all
abbrev prefix : Option ℕ → Bytes → Bytes
prefix none s = s
prefix (some n) s = take n s

-- The count `line - pos`, where a position that is not found is -1 and a negative count takes all.
abbrev count : Option ℕ → Option ℕ → Option ℕ
count none pos = none
count (some line) none = some (suc line)
count (some line) (some pos) = some (line - pos)

-- `getContent`: the second word of the first line
unfoldable pub get_content : Bytes → Bytes
get_content request =
    let line = find crlf request in
    let first = prefix line request in
    let pos = find (codes " ") (first ++ crlf) in
    let content = prefix (count line pos) (substr first (after pos)) in
    prefix (find (codes " ") content) content

-- substr(1, size), which throws on an empty string
abbrev drop_first : Bytes → Option Bytes
drop_first [] = none
drop_first (c ∷ s) = some s

abbrev pub answer : Bytes → Bytes → Bytes
answer status content =
    format_status status
    ++ (format_header (codes "Content-type") (codes "text/plain")
        ++ (format_header (codes "Content-length") (to_string (length content))
            ++ (format_header (codes "Connection") (codes "close") ++ (format_end ++ content))))

abbrev decoded_answer : Option Bytes → Option Bytes
decoded_answer none = none
decoded_answer (some s) = some (answer (codes "200 OK") (url_decode s))

-- `getResponse`; `none` is an exception
unfoldable pub get_response : Bytes → Bool → Option Bytes
get_response request true = decoded_answer (drop_first (get_content request))
get_response request false = some (answer (codes "400 Bad Request") request)
