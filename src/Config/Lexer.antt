-- ===== src/Config/Lexer.antt =====
-- `NginxConfigParser::ParseToken` and `getToken`. The stream is the list of the bytes to come: it
-- stops being `good` when a read finds none.
use cs130capstoneproject.Base.{ℕ, Bool, ◌||◌, [], ◌∷◌, ◌++◌, ◌==◌, if◌then◌else◌}
use cs130capstoneproject.Base.Bytes.{Bytes, codes}

pub data TokenType : Type 0 where
  start normal start_block end_block comment statement_end eof error : TokenType

pub data TokenState : Type 0 where
  initial_whitespace single_quote double_quote in_comment in_normal : TokenState

unfoldable pub token_type_as_string : TokenType → Bytes
token_type_as_string start = codes "TOKEN_TYPE_START"
token_type_as_string normal = codes "TOKEN_TYPE_NORMAL"
token_type_as_string start_block = codes "TOKEN_TYPE_START_BLOCK"
token_type_as_string end_block = codes "TOKEN_TYPE_END_BLOCK"
token_type_as_string comment = codes "TOKEN_TYPE_COMMENT"
token_type_as_string statement_end = codes "TOKEN_TYPE_STATEMENT_END"
token_type_as_string eof = codes "TOKEN_TYPE_EOF"
token_type_as_string error = codes "TOKEN_TYPE_ERROR"

-- A token with what is left of the stream.
pub record Token : Type 0 where
  pub type : TokenType
  pub value : Bytes
  pub rest : Bytes

-- What one byte does: return with the byte read, return after `unget`, or go on.
pub data Action : Type 0 where
  emit : TokenType → Bytes → Action
  unget : TokenType → Bytes → Action
  continue : TokenState → Bytes → Action

unfoldable pub step_initial : Bytes → ℕ → Action
step_initial v c =
    if c == b'{'
    then emit start_block (c ∷ [])
    else if c == b'}'
    then emit end_block (c ∷ [])
    else if c == b'#'
    then continue in_comment (c ∷ [])
    else if c == b'"'
    then continue double_quote (c ∷ [])
    else if c == b'\''
    then continue single_quote (c ∷ [])
    else if c == b';'
    then emit statement_end (c ∷ [])
    else if c == b' ' || c == b'\t' || c == b'\n' || c == b'\r'
    then continue initial_whitespace v
    else continue in_normal (v ++ c ∷ [])

-- The bytes that end an unquoted token: a carriage return is not one of them.
unfoldable pub ends_token : ℕ → Bool
ends_token c =
    c == b' ' || c == b'\t' || c == b'\n' || c == b'\t' || c == b';' || c == b'{' || c == b'}'

unfoldable pub step_token : TokenState → Bytes → ℕ → Action
unfolding step_initial ends_token
step_token initial_whitespace v c = step_initial v c
step_token single_quote v c =
    if c == b'\'' then emit normal (v ++ c ∷ []) else continue single_quote (v ++ c ∷ [])
step_token double_quote v c =
    if c == b'"' then emit normal (v ++ c ∷ []) else continue double_quote (v ++ c ∷ [])
step_token in_comment v c =
    if c == b'\n' || c == b'\r' then emit comment v else continue in_comment (v ++ c ∷ [])
step_token in_normal v c = if ends_token c then unget normal v else continue in_normal (v ++ c ∷ [])

-- behind the loop
abbrev pub end_type : TokenState → TokenType
end_type single_quote = error
end_type double_quote = error
end_type _ = eof

unfoldable pub token_from : TokenState → Bytes → Bytes → Token
token_from st v [] = record { type = end_type st; value = v; rest = [] }
token_from st v (c ∷ s) = elim (step_token st v c) [
  | emit t w ↦ record { type = t; value = w; rest = s }
  | unget t w ↦ record { type = t; value = w; rest = c ∷ s }
  | continue st' w ↦ token_from st' w s
]

-- `ParseToken` on an empty value
unfoldable pub parse_token : Bytes → Token
parse_token s = token_from initial_whitespace [] s

-- `getToken`, with what is left of the stream
unfoldable pub get_token : Bytes → Bytes × Bytes
unfolding parse_token
get_token s = let t = parse_token s in (t.value, t.rest)
