-- ===== src/RequestParser/Step.antt =====
-- `RequestParser::NextCharHandler`, a function for each group of states. `none` stands for
-- undefined behaviour: `back()` of no header, or the last byte of an empty path.
use mathlib.Core.Option
use cs130capstoneproject.Base.{
  ℕ, ◌+◌, ◌-◌, ◌%◌, ◌&&◌, ◌||◌, not, Bool, true, false, Option, none, some, [], ◌∷◌, ◌++◌, ◌==◌,
  ltb, if◌then◌else◌,
}
use cs130capstoneproject.Base.Bytes.{Bytes, codes, is_digit}
use cs130capstoneproject.RequestParser.Numbers.{stoull, u64_mod}
use cs130capstoneproject.RequestParser.Path.{infer_path}
use cs130capstoneproject.RequestParser.State.{
  Result, good, bad, undefined, State, method_start, method, uri, version_h, version_first_t,
  version_second_t, version_p, version_slash, version_major_start, version_major,
  version_minor_start, version_minor, newline_1, header_start, header_lws, header_name,
  space_before_header_value, header_value, newline_2, newline_3, body, Headers, Parser,
  get_header_value, is_control_char, is_separator,
}

abbrev pub Outcome : Type 0
Outcome = Option (Result × Parser)

-- return undefined, bad, good
abbrev pub more : Parser → Outcome
more p = some (undefined, p)

abbrev pub refuse : Parser → Outcome
refuse p = some (bad, p)

abbrev pub accept : Parser → Outcome
accept p = some (good, p)

-- headers_.back().first.push_back(c), headers_.back().second.push_back(c)
unfoldable pub push_name : ℕ → Headers → Option Headers
push_name c [] = none
push_name c ((n, v) ∷ []) = some ((n ++ c ∷ [], v) ∷ [])
push_name c (h ∷ g ∷ hs) = Option.map (◌∷◌ h) (push_name c (g ∷ hs))

unfoldable pub push_value : ℕ → Headers → Option Headers
push_value c [] = none
push_value c ((n, v) ∷ []) = some ((n, v ++ c ∷ []) ∷ [])
push_value c (h ∷ g ∷ hs) = Option.map (◌∷◌ h) (push_value c (g ∷ hs))

abbrev with_headers : Parser → State → Option Headers → Outcome
with_headers p next none = none
with_headers p next (some hs) = more (record p { headers = hs; state = next })

-- case _method_start, _method
step_method : Bool → Parser → ℕ → Outcome
step_method start p c =
    if not start && c == b' '
    then more (record p { state = uri })
    else if is_separator c
    then refuse p
    else more (record p { state = method; method = p.method ++ c ∷ [] })

abbrev with_path : Parser → Option Bytes → Outcome
with_path p none = none
with_path p (some path) = more (record p { state = version_h; path = path })

-- case _uri
step_uri : Parser → ℕ → Outcome
step_uri p c =
    if c == b' '
    then with_path p (infer_path p.path p.uri)
    else if is_control_char c
    then refuse p
    else more (record p { uri = p.uri ++ c ∷ [] })

abbrev push_version : Parser → ℕ → State → Outcome
push_version p c next = more (record p { state = next; version = p.version ++ c ∷ [] })

-- case _version_h to _version_slash: one byte is expected
step_literal : ℕ → State → Parser → ℕ → Outcome
step_literal expected next p c = if c == expected then push_version p c next else refuse p

-- case _version_major_start, _version_minor_start
step_first_digit : State → Parser → ℕ → Outcome
step_first_digit next p c = if is_digit c then push_version p c next else refuse p

-- case _version_major
step_major : Parser → ℕ → Outcome
step_major p c =
    if c == b'.'
    then push_version p c version_minor_start
    else if is_digit c
    then push_version p c version_major
    else refuse p

-- case _version_minor
step_minor : Parser → ℕ → Outcome
step_minor p c =
    if c == b'\r'
    then more (record p { state = newline_1 })
    else if is_digit c
    then push_version p c version_minor
    else refuse p

-- case _newline_1, _newline_2
step_newline : Parser → ℕ → Outcome
step_newline p c = if c == b'\n' then more (record p { state = header_start }) else refuse p

abbrev pub is_empty : Headers → Bool
is_empty [] = true
is_empty (_ ∷ _) = false

-- case _header_start
step_header_start : Parser → ℕ → Outcome
step_header_start p c =
    if c == b'\r'
    then more (record p { state = newline_3 })
    else if not (is_empty p.headers) && (c == b' ' || c == b'\t')
    then more (record p { state = header_lws })
    else if is_separator c
    then refuse p
    else with_headers p header_name (push_name c (p.headers ++ ([], []) ∷ []))

-- case _header_lws
step_header_lws : Parser → ℕ → Outcome
step_header_lws p c =
    if c == b'\r'
    then more (record p { state = newline_2 })
    else if c == b' ' || c == b'\t'
    then more p
    else if is_control_char c
    then refuse p
    else with_headers p header_value (push_value c p.headers)

-- case _header_name
step_header_name : Parser → ℕ → Outcome
step_header_name p c =
    if c == b':'
    then more (record p { state = space_before_header_value })
    else if is_separator c
    then refuse p
    else with_headers p header_name (push_name c p.headers)

-- case _space_before_header_value
step_space : Parser → ℕ → Outcome
step_space p c = if c == b' ' then more (record p { state = header_value }) else refuse p

-- case _header_value
step_header_value : Parser → ℕ → Outcome
step_header_value p c =
    if c == b'\r'
    then more (record p { state = newline_2 })
    else if is_control_char c
    then refuse p
    else with_headers p header_value (push_value c p.headers)

-- the `try` block: an exception, or no bytes to come, ends the request
abbrev pub await_body : Parser → Option ℕ → Outcome
await_body p none = accept p
await_body p (some n) =
    if ltb 0 n
    then more (record p { remaining = n; state = body })
    else accept (record p { remaining = n })

-- case _newline_3
step_newline_3 : Parser → ℕ → Outcome
step_newline_3 p c =
    if c == b'\n'
    then await_body p (stoull (get_header_value p.headers (codes "Content-Length")))
    else refuse p

-- case _body; `remaining--` wraps around
step_body : Parser → ℕ → Outcome
step_body p c =
    let left = (p.remaining + u64_mod - 1) % u64_mod in
    let q = record p { body = p.body ++ c ∷ []; remaining = left } in
    if ltb 0 left then more q else accept q

unfoldable pub step_in : State → Parser → ℕ → Outcome
unfolding step_method step_uri step_literal step_first_digit step_major step_minor step_newline
    step_header_start step_header_lws step_header_name step_space step_header_value step_newline_3
    step_body
step_in method_start = step_method true
step_in method = step_method false
step_in uri = step_uri
step_in version_h = step_literal b'H' version_first_t
step_in version_first_t = step_literal b'T' version_second_t
step_in version_second_t = step_literal b'T' version_p
step_in version_p = step_literal b'P' version_slash
step_in version_slash = step_literal b'/' version_major_start
step_in version_major_start = step_first_digit version_major
step_in version_major = step_major
step_in version_minor_start = step_first_digit version_minor
step_in version_minor = step_minor
step_in newline_1 = step_newline
step_in header_start = step_header_start
step_in header_lws = step_header_lws
step_in header_name = step_header_name
step_in space_before_header_value = step_space
step_in header_value = step_header_value
step_in newline_2 = step_newline
step_in newline_3 = step_newline_3
step_in body = step_body

abbrev pub read_byte : Parser → ℕ → Parser
read_byte p c = record p { raw_request = p.raw_request ++ c ∷ [] }

unfoldable pub next_char_handler : Parser → ℕ → Outcome
next_char_handler p c = step_in p.state (read_byte p c) c
