-- ===== src/Static/Files.antt =====
-- `StaticFileHandler::handleRequest`, `getBinaryContent` and `formResponse`.
use cs130capstoneproject.Base.{
  ℕ, Bool, ◌&&◌, ◌||◌, Option, none, some, [], ◌∷◌, ◌++◌, ◌==◌, length, drop, if◌then◌else◌,
}
use cs130capstoneproject.Base.Bytes.{Bytes, codes, find}
use cs130capstoneproject.Base.Map.{Map, assign}
use cs130capstoneproject.Base.Int.{ℤ, pos_part, neg_part}
use cs130capstoneproject.RequestParser.Request.{Method, get, post, Request}
use cs130capstoneproject.Http.Decimal.{to_string}
use cs130capstoneproject.Http.Status
use cs130capstoneproject.Http.Status.{StatusCode}
use cs130capstoneproject.Http.Response.{Response}
use cs130capstoneproject.Handlers.Log.{Log, add_record}
use cs130capstoneproject.Static.Types.{config_parser}
use cs130capstoneproject.Static.Paths.{replace_path}

-- What stands under a path: nothing, a file, or something that exists and has no bytes to read, such
-- as a directory.
pub data Entry : Type 0 where
  missing unreadable : Entry
  file : Bytes → Entry

-- The files and the working directory of the process.
pub record FileSystem : Type 0 where
  pub current_path : Bytes
  pub entry : Bytes → Entry

-- while (s[0] == '/' && s[1] == '/') s = s.substr(1)
unfoldable pub one_slash : Bytes → Bytes
one_slash [] = []
one_slash (c ∷ []) = c ∷ []
one_slash (c ∷ d ∷ s) =
    let shorter = one_slash (d ∷ s) in if c == b'/' && d == b'/' then shorter else c ∷ d ∷ s

abbrev pub local_path : FileSystem → Bytes → Bytes
local_path fs path = one_slash (fs.current_path ++ path)

abbrev pub not_found_response : Response
not_found_response = record {
  code = Status.not_found;
  headers = assign (codes "Connection") (codes "close") (
      assign (codes "Content-length") (to_string (length (codes "Error: File Not Found")))
        (assign (codes "Content-type") (codes "text/plain") []));
  body = codes "Error: File Not Found";
  src_type = 0;
}

abbrev pub image_type : ℤ → ℕ
image_type src_type = if pos_part src_type == 2 then 2 else if pos_part src_type == 3 then 3 else 4

abbrev pub content_type : ℕ → Bytes
content_type n =
    if n == 2
    then codes "image/png"
    else if n == 3
    then codes "image/jpeg"
    else codes "application/octet-stream"

abbrev pub binary_response : ℤ → Bytes → Response
binary_response src_type image = record {
  code = Status.ok;
  headers = assign (codes "Connection") (codes "close") (
      assign (codes "Content-Length") (to_string (length image))
        (assign (codes "Content-type") (content_type (image_type src_type)) []));
  body = image;
  src_type = image_type src_type;
}

-- With a record in the log.
abbrev pub logged : Bytes → Log → Response → Response × Log
logged path log res = (res, add_record path (codes "StaticHandler") res.code log)

abbrev pub binary_entry : Bytes → ℤ → Log → Entry → Option (Response × Log)
binary_entry path src_type log missing = some (logged path log not_found_response)
binary_entry path src_type log unreadable = none
binary_entry path src_type log (file image) =
    some (logged path log (binary_response src_type image))

-- `getBinaryContent`; `none` where the size of what is there cannot be told.
unfoldable pub get_binary_content : FileSystem → Bytes → ℤ → Log → Option (Response × Log)
get_binary_content fs path src_type log =
    binary_entry path src_type log (fs.entry (local_path fs path))

-- The lines that `getline` reads, one behind the other.
unfoldable pub join_lines : Bytes → Bytes
join_lines [] = []
join_lines (c ∷ s) = let rest = join_lines s in if c == b'\n' then rest else c ∷ rest

abbrev pub text_response : Bytes → Response
text_response body = record {
  code = Status.ok;
  headers =
      assign (codes "Content-Length") (to_string (length body))
        (assign (codes "Content-Type") (codes "text/html; charset=UTF-8") []);
  body = body;
  src_type = 1;
}

abbrev pub text_entry : Entry → Response
text_entry missing = not_found_response
text_entry unreadable = text_response []
text_entry (file content) = text_response (join_lines content)

abbrev pub index_page : Response
index_page = record {
  code = Status.ok;
  headers = assign (codes "Connection") (codes "close") (
      assign (codes "Content-Length") (codes "37")
        (assign (codes "Content-Type") (codes "text/html; charset=UTF-8") []));
  body = codes "Hello World! This is the index page.";
  src_type = 0;
}

-- `formResponse`, of type 0 or 1; another type has no return.
unfoldable pub form_response : FileSystem → ℤ → Bytes → Log → Option (Response × Log)
form_response fs src_type path log =
    if pos_part src_type == 0 && neg_part src_type == 0
    then some (logged path log index_page)
    else if pos_part src_type == 1
    then some (logged path log (text_entry (fs.entry (local_path fs path))))
    else none

-- `request.method_ + " "`, the address of a text of one byte moved by the number of the method, which
-- is read up to its null.
abbrev pub method_text : Method → Option Bytes
method_text get = some (codes " ")
method_text post = some []
method_text _ = none

-- uri.find("/") + 1
abbrev pub behind_slash : Bytes → Option ℕ → Bytes
behind_slash uri none = uri
behind_slash uri (some p) = drop p (drop 1 uri)

abbrev pub request_line : Request → Option Bytes → Option Bytes
request_line req none = none
request_line req (some text) = some (
    text
    ++ (behind_slash req.uri (find (codes "/") req.uri) ++ (b' ' ∷ (req.version ++ codes "\r\n"))))

-- `getRequestLine`; `none` is an access out of bounds.
unfoldable pub get_request_line : Request → Option Bytes
get_request_line req = request_line req (method_text req.method)

-- A response, with the map of roots and the log afterwards.
abbrev pub Answer : Type 0
Answer = Option (Response × Map Bytes × Log)

abbrev pub with_roots : Map Bytes → Option (Response × Log) → Answer
with_roots roots none = none
with_roots roots (some (res, log)) = some (res, roots, log)

abbrev pub binary_at : FileSystem → ℤ → Log → Option (Bytes × Map Bytes) → Answer
binary_at fs src_type log none = none
binary_at fs src_type log (some (path, roots)) =
    with_roots roots (get_binary_content fs path src_type log)

abbrev pub text_at : FileSystem → ℤ → Request → Log → Option (Bytes × Map Bytes) → Answer
text_at fs src_type req log none = none
text_at fs src_type req log (some ([], roots)) =
    some
      (not_found_response, roots, add_record req.uri (codes "StaticHandler") Status.not_found log)
text_at fs src_type req log (some (c ∷ path, roots)) =
    with_roots roots (form_response fs src_type (c ∷ path) log)

abbrev pub is_binary : ℤ → Bool
is_binary src_type = pos_part src_type == 2 || pos_part src_type == 3 || pos_part src_type == 4

abbrev pub answer_type : FileSystem → Request → Map Bytes → Log → ℤ → Answer
answer_type fs req roots log src_type =
    if is_binary src_type
    then binary_at fs src_type log (replace_path req.uri roots)
    else if neg_part src_type == 1
    then some
        (not_found_response, roots, add_record req.uri (codes "StaticHandler") Status.not_found log)
    else text_at fs src_type req log (replace_path req.uri roots)

abbrev pub answer_line : FileSystem → Request → Map Bytes → Log → Option Bytes → Answer
answer_line fs req roots log none = none
answer_line fs req roots log (some line) = answer_type fs req roots log (config_parser req.uri)

-- `handleRequest`; the text of the request that it puts together is not used.
unfoldable pub handle_request : FileSystem → Request → Map Bytes → Log → Answer
handle_request fs req roots log = answer_line fs req roots log (get_request_line req)
