-- ===== src/Config/Lexing.antt =====
-- The tokens that `ToString` may print, and how `ParseToken` reads them back.
use cs130capstoneproject.Base.{
  ℕ, zero, suc, ◌≡◌, refl, ◌∙◌, ◌⊎◌, inl, inr, Bool, true, false, not, ◌||◌, some, [], ◌∷◌, ◌++◌,
  append-nil, append_assoc, arith, ◌==◌, All, All-concat,
}
use cs130capstoneproject.Base.Bytes.{Bytes}
use cs130capstoneproject.Config.Syntax.{indent}
use cs130capstoneproject.Config.Lexer.{
  normal, single_quote, double_quote, in_normal, ends_token, step_token, token_from, parse_token,
}
use cs130capstoneproject.Config.Parser.{track_braces}

-- A byte that begins an unquoted token.
abbrev pub begins_plain : ℕ → Bool
begins_plain c = not (
    c == b'{'
    || c == b'}'
    || c == b'#'
    || c == b'"'
    || c == b'\''
    || c == b';'
    || c == b' '
    || c == b'\t'
    || c == b'\n'
    || c == b'\r')

-- An unquoted token.
abbrev pub IsPlain : Bytes → Type 0
IsPlain [] = ⊥
IsPlain (c ∷ s) = (begins_plain c ≡ true) × All (λ x. ends_token x ≡ false) s

-- A token between two quotation marks, with none inside.
abbrev pub IsQuoted : ℕ → Bytes → Type 0
IsQuoted q t = (inside : Bytes) × (t ≡ q ∷ (inside ++ q ∷ [])) × All (λ x. (x == q) ≡ false) inside

abbrev pub IsToken : Bytes → Type 0
IsToken t = IsPlain t ⊎ IsQuoted b'"' t ⊎ IsQuoted b'\'' t

token_from_normal :
    (s v rest : Bytes) (d : ℕ)
    → All (λ x. ends_token x ≡ false) s
    → ends_token d ≡ true
    → token_from in_normal v (s ++ d ∷ rest)
      ≡ record { type = normal; value = v ++ s; rest = d ∷ rest }
unfolding token_from step_token
token_from_normal [] v rest d h e = rw append-nil (ground arith)
token_from_normal (c ∷ s) v rest d (h, hs) e =
    ground (arith, token_from_normal s (v ++ c ∷ []) rest d hs e, append_assoc v (c ∷ []) s)

token_from_double :
    (s v rest : Bytes)
    → All (λ x. (x == b'"') ≡ false) s
    → token_from double_quote v (s ++ b'"' ∷ rest)
      ≡ record { type = normal; value = v ++ (s ++ b'"' ∷ []); rest = rest }
unfolding token_from step_token
token_from_double [] v rest h = refl
token_from_double (c ∷ s) v rest (h, hs) =
    ground
      (arith, token_from_double s (v ++ c ∷ []) rest hs, append_assoc v (c ∷ []) (s ++ b'"' ∷ []))

token_from_single :
    (s v rest : Bytes)
    → All (λ x. (x == b'\'') ≡ false) s
    → token_from single_quote v (s ++ b'\'' ∷ rest)
      ≡ record { type = normal; value = v ++ (s ++ b'\'' ∷ []); rest = rest }
unfolding token_from step_token
token_from_single [] v rest h = refl
token_from_single (c ∷ s) v rest (h, hs) =
    ground
      (arith, token_from_single s (v ++ c ∷ []) rest hs, append_assoc v (c ∷ []) (s ++ b'\'' ∷ []))

first_plain :
    (c : ℕ) (s : Bytes)
    → begins_plain c ≡ true
    → parse_token (c ∷ s) ≡ token_from in_normal (c ∷ []) s
unfolding parse_token token_from step_token
first_plain c s h = ground arith

-- A token is read back from in front of a byte that ends it.
pub parse_token-IsToken :
    (t rest : Bytes) (d : ℕ)
    → IsToken t
    → ends_token d ≡ true
    → parse_token (t ++ d ∷ rest) ≡ record { type = normal; value = t; rest = d ∷ rest }
parse_token-IsToken [] rest d (inl h) e = absurd h
parse_token-IsToken (c ∷ s) rest d (inl (h, hs)) e =
    first_plain c (s ++ d ∷ rest) h ∙ token_from_normal s (c ∷ []) rest d hs e
parse_token-IsToken t rest d (inr (inl (s, q, h))) e =
    rw (q, append_assoc)
      (unfold parse_token token_from step_token in token_from_double s (b'"' ∷ []) (d ∷ rest) h)
parse_token-IsToken t rest d (inr (inr (s, q, h))) e =
    rw (q, append_assoc)
      (unfold parse_token token_from step_token in token_from_single s (b'\'' ∷ []) (d ∷ rest) h)

-- No such token begins with a brace.
pub track_braces-IsToken : (t : Bytes) (n : ℕ) → IsToken t → track_braces t n ≡ some n
unfolding track_braces
track_braces-IsToken [] n h = refl
track_braces-IsToken (c ∷ s) n (inl (h, _)) = ground arith
track_braces-IsToken (c ∷ s) n (inr (inl (i, q, h))) = ground arith
track_braces-IsToken (c ∷ s) n (inr (inr (i, q, h))) = ground arith

-- White space in front of a token is skipped.
pub parse_token-newline : (s : Bytes) → parse_token (b'\n' ∷ s) ≡ parse_token s
unfolding parse_token token_from step_token
parse_token-newline s = refl

pub parse_token-space : (s : Bytes) → parse_token (b' ' ∷ s) ≡ parse_token s
unfolding parse_token token_from step_token
parse_token-space s = refl

pub parse_token-indent : (d : ℕ) (s : Bytes) → parse_token (indent d ++ s) ≡ parse_token s
unfolding indent
parse_token-indent zero s = refl
parse_token-indent (suc d) s =
    parse_token-space (b' ' ∷ (indent d ++ s))
    ∙ parse_token-space (indent d ++ s)
    ∙ parse_token-indent d s

-- A carriage return behind an unquoted token is read as a byte of the token: a file with CRLF line
-- ends has it in the last token of a line that does not end with one of ; { } or white space.
pub parse_token_carriage_return :
    (t rest : Bytes)
    → IsPlain t
    → parse_token (t ++ b'\r' ∷ b'\n' ∷ rest)
      ≡ record { type = normal; value = t ++ b'\r' ∷ []; rest = b'\n' ∷ rest }
unfolding ends_token
parse_token_carriage_return [] rest h = absurd h
parse_token_carriage_return (c ∷ s) rest (h, hs) =
    let token : IsPlain (c ∷ s ++ b'\r' ∷ []) =
      (h, All-concat (λ x. ends_token x ≡ false) s hs refl) in
    rw append_assoc at (parse_token-IsToken (c ∷ s ++ b'\r' ∷ []) rest b'\n' (inl token) refl)
