-- ===== src/Session/Checks.antt =====
-- The functions of src/utils.cc that decide whether a text is a request. Matching a text against a
-- pattern is boost's, and a parameter.
use cs130capstoneproject.Base.{
  ℕ, zero, suc, ◌+◌, Bool, true, false, ◌||◌, Option, none, some, [], ◌∷◌, ◌++◌, length, take, drop,
  if◌then◌else◌,
}
use cs130capstoneproject.Base.Bytes.{Bytes, codes, find}
use cs130capstoneproject.RequestParser.Request.{Method}
use cs130capstoneproject.Http.Utils.{crlf, check_method}

-- The patterns.
abbrev pub header_pattern : Bytes
header_pattern = codes "([a-zA-Z]+(-([a-zA-z]+))*):\\s*(.*)"

abbrev pub request_line_pattern : Bytes
request_line_pattern = codes "[A-Z]+\\s(\\/.*)\\s+(HTTP\\/[1-2]\\.[0-2])(\\r\\n)"

abbrev pub absolute_path_pattern : Bytes
absolute_path_pattern =
    codes
      "([A-Za-z]+)\\s(http:\\/\\/www\\.|https:\\/\\/www\\.|http:\\/\\/|https:\\/\\/)([\\w-\\d]+\\.)+([\\w-\\d]+)(\\/.*)\\s+(HTTP\\/[1-2]\\.[0-2])(\\r\\n)"

-- substr(0, pos), where `npos` takes all
abbrev pub before : Option ℕ → Bytes → Bytes
before none s = s
before (some n) s = take n s

-- substr(pos + 2), where one behind `npos` is 1; it throws behind the end
abbrev pub behind : Option ℕ → Bytes → Option Bytes
behind none [] = none
behind none (c ∷ s) = some s
behind (some n) s = some (drop (n + 2) s)

-- A method that `check_method` knows.
abbrev pub is_known : Option Method → Bool
is_known none = false
is_known (some m) = true

abbrev pub knows_method : Bytes → Bool
knows_method line = is_known (check_method (before (find (codes " ") line) line))

module _ (regex_match : Bytes → Bytes → Bool) where
  unfoldable pub check_header : Bytes → Bool
  check_header header = regex_match header header_pattern

  unfoldable pub check_request_line : Bytes → Bool
  check_request_line request =
      regex_match request request_line_pattern || regex_match request absolute_path_pattern

  -- The loop over the lines, to the first empty one. A round takes fuel; `none` is too little.
  unfoldable pub check_headers : ℕ → Bytes → Option Bool
  check_headers zero request = none
  check_headers (suc f) request = elim (find crlf request) [
    | none ↦ some false
    | some line ↦ elim (take line request) [
      | [] ↦ some true
      | c ∷ header ↦ elim (check_header (c ∷ header)) [
        | true ↦ check_headers f (drop (line + 2) request)
        | false ↦ some false
      ]
    ]
  ]

  abbrev pub check_rest : Bytes → Option Bytes → Option Bool
  check_rest request_line none = none
  check_rest request_line (some rest) =
      if knows_method request_line then check_headers (suc (length rest)) rest else some false

  -- `check_request`; `none` is an exception of `substr`.
  unfoldable pub check_request : Bytes → Option Bool
  check_request request =
      let line = find crlf request in
      let request_line = before line request ++ crlf in
      if check_request_line request_line
      then check_rest request_line (behind line request)
      else some false
