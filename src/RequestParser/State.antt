-- ===== src/RequestParser/State.antt =====
-- include/request_parser.h: the state of the parser, its results, and its character classes.
use cs130capstoneproject.Base.{
  ◌≡◌, arith, false, ℕ, ◌||◌, not, Bool, List, [], ◌∷◌, ◌==◌, leb, if◌then◌else◌,
}
use cs130capstoneproject.Base.Bytes.{Bytes, equal}

pub data Result : Type 0 where
  good bad undefined : Result

pub data State : Type 0 where
  method_start method uri : State
  version_h version_first_t version_second_t version_p version_slash : State
  version_major_start version_major version_minor_start version_minor : State
  newline_1 header_start header_lws header_name space_before_header_value header_value : State
  newline_2 newline_3 body : State

abbrev pub Headers : Type 0
Headers = List (Bytes × Bytes)

-- `remaining` is an unsigned 64-bit number.
pub record Parser : Type 0 where
  pub state : State
  pub remaining : ℕ
  pub raw_request : Bytes
  pub path : Bytes
  pub version : Bytes
  pub method : Bytes
  pub uri : Bytes
  pub headers : Headers
  pub body : Bytes

-- A new parser, and one after `Reset`: `remaining` keeps the value that it has, which for a new
-- parser is whatever the memory holds.
abbrev pub fresh : ℕ → Parser
fresh r = record {
  state = method_start;
  remaining = r;
  raw_request = [];
  path = [];
  version = [];
  method = [];
  uri = [];
  headers = [];
  body = [];
}

abbrev pub reset : Parser → Parser
reset p = fresh p.remaining

-- `GetHeaderValue`: the first header of that name, or the empty string.
unfoldable pub get_header_value : Headers → Bytes → Bytes
get_header_value [] name = []
get_header_value ((n, v) ∷ hs) name = if equal n name then v else get_header_value hs name

-- A `char` above 127 is negative as an `int` where `char` is signed; the tests have the same
-- results where it is not.
unfoldable pub is_char : ℕ → Bool
is_char c = leb c 127

unfoldable pub is_control_char : ℕ → Bool
is_control_char c = leb c 31 || c == 127

unfoldable pub is_special_char : ℕ → Bool
is_special_char c =
    c == b'('
    || c == b')'
    || c == b'<'
    || c == b'>'
    || c == b'@'
    || c == b','
    || c == b';'
    || c == b':'
    || c == b'\\'
    || c == b'"'
    || c == b'/'
    || c == b'['
    || c == b']'
    || c == b'?'
    || c == b'='
    || c == b'{'
    || c == b'}'
    || c == b' '
    || c == b'\t'

-- The test that refuses a byte in a method or a header name.
unfoldable pub is_separator : ℕ → Bool
is_separator c = not (is_char c) || is_control_char c || is_special_char c

-- A byte that is no separator is none of the bytes that end a method or a header name.
pub separator-false :
    (c : ℕ)
    → is_separator c ≡ false
    → ((c == b' ') ≡ false)
      × ((c == b'\t') ≡ false)
      × ((c == b'\r') ≡ false)
      × ((c == b':') ≡ false)
unfolding is_separator is_control_char is_special_char
separator-false c h = (ground arith, ground arith, ground arith, ground arith)
