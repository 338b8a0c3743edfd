-- ===== src/Http/Utils.antt =====
-- src/utils.cc: the helpers that use no regular expression.
use cs130capstoneproject.Base.{
  ℕ, Option, none, some, [], ◌∷◌, ◌++◌, ◌==◌, length, Bool, true, false, ◌&&◌, if◌then◌else◌,
}
use cs130capstoneproject.Base.Bytes.{Bytes, codes, equal}
use cs130capstoneproject.Base.Map.{assign}
use cs130capstoneproject.RequestParser.Request.{
  Method, get, post, put, delete, head, connect, options, trace, patch,
}
use cs130capstoneproject.RequestParser.Numbers.{read_hex}
use cs130capstoneproject.Http.Decimal.{to_string}
use cs130capstoneproject.Http.Status.{StatusCode}
use cs130capstoneproject.Http.Response.{Response}

abbrev pub crlf : Bytes
crlf = b'\r' ∷ b'\n' ∷ []

-- `check_method`; `none` is -1
unfoldable pub check_method : Bytes → Option Method
check_method m =
    if equal m (codes "GET")
    then some get
    else if equal m (codes "POST")
    then some post
    else if equal m (codes "PUT")
    then some put
    else if equal m (codes "DELETE")
    then some delete
    else if equal m (codes "HEAD")
    then some head
    else if equal m (codes "CONNECT")
    then some connect
    else if equal m (codes "OPTIONS")
    then some options
    else if equal m (codes "TRACE")
    then some trace
    else if equal m (codes "PATCH")
    then some patch
    else none

unfoldable pub format_status : Bytes → Bytes
format_status status = codes "HTTP/1.1 " ++ (status ++ crlf)

unfoldable pub format_header : Bytes → Bytes → Bytes
format_header key value = key ++ (codes ": " ++ (value ++ crlf))

abbrev pub format_end : Bytes
format_end = crlf

-- `boost::replace_all(request, "\r\n", "")`, and the length of what is left
pub remove_crlf : Bytes → Bytes
remove_crlf [] = []
remove_crlf (c ∷ []) = c ∷ []
remove_crlf (c ∷ d ∷ s) = elim (c == b'\r') [
  | true ↦ elim (d == b'\n') [ true ↦ remove_crlf s | false ↦ c ∷ remove_crlf (d ∷ s) ]
  | false ↦ c ∷ remove_crlf (d ∷ s)
]

unfoldable pub filter_crlf : Bytes → ℕ
unfolding remove_crlf
filter_crlf request = length (remove_crlf request)

-- `complete`
unfoldable pub complete : Bytes → ℕ → Bool
complete request bytes_transferred = equal request crlf && bytes_transferred == 2

abbrev plus_to_space : ℕ → ℕ
plus_to_space c = if c == b'+' then b' ' else c

-- `url_decode`: a percent sign with a bad escape, or with fewer than two bytes behind it, is dropped.
unfoldable pub url_decode : Bytes → Bytes
url_decode [] = []
url_decode (c ∷ []) = if c == b'%' then [] else plus_to_space c ∷ []
url_decode (c ∷ a ∷ []) =
    let rest = url_decode (a ∷ []) in if c == b'%' then rest else plus_to_space c ∷ rest
url_decode (c ∷ a ∷ b ∷ s) = elim (c == b'%') [
  | true ↦ elim (read_hex a b) [ none ↦ url_decode (a ∷ b ∷ s) | some v ↦ v ∷ url_decode s ]
  | false ↦ plus_to_space c ∷ url_decode (a ∷ b ∷ s)
]

-- `plain_text_response`
unfoldable pub plain_text_response : Bytes → StatusCode → Response
plain_text_response text code = record {
  code = code;
  headers = assign (codes "Connection") (codes "close") (
      assign (codes "Content-length") (to_string (length text))
        (assign (codes "Content-type") (codes "text/plain") []));
  body = text;
  src_type = 0;
}
