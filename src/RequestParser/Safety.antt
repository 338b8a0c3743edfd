-- ===== src/RequestParser/Safety.antt =====
-- When `NextCharHandler` and `Parse` stay within the bounds of their strings and vectors.
use mathlib.Core.List.{concat-ne-nil}
use cs130capstoneproject.Base.{
  ℕ, ◌+◌, ◌≤◌, ◌<◌, ◌≡◌, ◌≢◌, ◌↔◌, refl, Bool-cases, inl, inr, Option, none, some, [], ◌∷◌, ◌++◌,
  arith, ◌==◌, length, length-append, get_last?, Option-cases,
}
use cs130capstoneproject.Base.Bytes.{Bytes, codes, find}
use cs130capstoneproject.RequestParser.Numbers.{read_hex, u64_mod, stoull-FitsWord}
use cs130capstoneproject.RequestParser.State.{
  undefined, State, method_start, method, uri, header_start, header_lws, header_name,
  space_before_header_value, header_value, newline_3, body, Headers, Parser, get_header_value,
}
use cs130capstoneproject.RequestParser.Step.{
  push_name, push_value, step_in, next_char_handler, read_byte,
}
use cs130capstoneproject.RequestParser.Path.{decode, infer_path, finish_path, plus_to_space}

-- 1 for a URI that is not empty
abbrev bytes_due : Bytes → ℕ
bytes_due [] = 0
bytes_due (_ ∷ _) = 1

-- Every round of the loop adds a byte.
decode-grows :
    (path uri out : Bytes) → decode path uri ≡ some out → length path + bytes_due uri ≤ length out
unfolding decode
decode-grows path [] out e = ground arith
decode-grows path (c ∷ []) out e = ground (arith, length-append path (plus_to_space c ∷ []))
decode-grows path (c ∷ a ∷ []) out e = ground (
  arith,
  decode-grows (path ++ plus_to_space c ∷ []) (a ∷ []) out,
  length-append path (plus_to_space c ∷ []),
)
decode-grows path (c ∷ a ∷ b ∷ s) out e = elim (Bool-cases (c == b'%')) [
  | inl escape ↦ elim (Option-cases (read_hex a b)) [
    | inl wrong ↦ absurd (ground arith)
    | inr (v, right) ↦
        omega
          (arith, decode-grows (path ++ v ∷ []) s out (ground arith), length-append path (v ∷ []))
  ]
  | inr plain ↦ omega (
    arith,
    decode-grows (path ++ plus_to_space c ∷ []) (a ∷ b ∷ s) out (rw (plain, decode) at e),
    length-append path (plus_to_space c ∷ []),
  )
]

get_last?-none_iff : (s : Bytes) → (get_last? s ≡ none) ↔ (s ≡ [])
get_last?-none_iff [] = ground arith
get_last?-none_iff (x ∷ []) = ground arith
get_last?-none_iff (x ∷ y ∷ s) = ground (arith, get_last?-none_iff (y ∷ s))

decode_nonempty : (uri : Bytes) → uri ≢ [] → decode [] uri ≢ some []
decode_nonempty [] h e = h refl
decode_nonempty (c ∷ s) h e = absurd (omega (arith, decode-grows [] (c ∷ s) [] e))

finish_path-ne-none : (path : Option Bytes) → path ≢ some [] → finish_path path ≢ none
finish_path-ne-none none h e = cc
finish_path-ne-none (some []) h e = h refl
finish_path-ne-none (some (c ∷ s)) h e = ground (arith, get_last?-none_iff (c ∷ s))

-- The last byte of the path is missing exactly when the URI is empty.
pub infer_path-none_iff : (uri : Bytes) → (infer_path [] uri ≡ none) ↔ (uri ≡ [])
unfolding infer_path find
infer_path-none_iff [] = (λ _. refl, λ _. refl)
infer_path-none_iff (c ∷ s) =
    (λ e. absurd (finish_path-ne-none _ (decode_nonempty (c ∷ s) (λ q. cc)) e), λ q. cc)

pub push_value-ne-none : (c : ℕ) (hs : Headers) → hs ≢ [] → push_value c hs ≢ none
unfolding push_value
push_value-ne-none c [] h e = h refl
push_value-ne-none c (h ∷ []) k e = cc
push_value-ne-none c (h ∷ g ∷ hs) k e = ground (arith, push_value-ne-none c (g ∷ hs))

pub push_name-ne-none : (c : ℕ) (hs : Headers) → hs ≢ [] → push_name c hs ≢ none
unfolding push_name
push_name-ne-none c [] h e = h refl
push_name-ne-none c (h ∷ []) k e = cc
push_name-ne-none c (h ∷ g ∷ hs) k e = ground (arith, push_name-ne-none c (g ∷ hs))

push_value-ne-nil : (c : ℕ) (hs : Headers) → push_value c hs ≢ some []
unfolding push_value
push_value-ne-nil c [] e = cc
push_value-ne-nil c (h ∷ []) e = cc
push_value-ne-nil c (h ∷ g ∷ hs) e = ground arith

push_name-ne-nil : (c : ℕ) (hs : Headers) → push_name c hs ≢ some []
unfolding push_name
push_name-ne-nil c [] e = cc
push_name-ne-nil c (h ∷ []) e = cc
push_name-ne-nil c (h ∷ g ∷ hs) e = ground arith

-- What each state relies on: no path before the URI ends, a header to extend, bytes to come.
abbrev pub Holds : State → Parser → Type 0
Holds method_start p = p.path ≡ []
Holds method p = p.path ≡ []
Holds uri p = p.path ≡ []
Holds header_lws p = p.headers ≢ []
Holds header_name p = p.headers ≢ []
Holds space_before_header_value p = p.headers ≢ []
Holds header_value p = p.headers ≢ []
Holds body p = (0 < p.remaining) × (p.remaining < u64_mod)
Holds _ p = Unit

abbrev pub IsSound : Parser → Type 0
IsSound p = Holds p.state p

-- The space that ends an empty URI.
abbrev pub Faults : State → Parser → ℕ → Type 0
Faults s p c = (s ≡ uri) × (c ≡ b' ') × (p.uri ≡ [])

step_in-none_iff :
    (s : State) (p : Parser) (c : ℕ) → Holds s p → (step_in s p c ≡ none) ↔ Faults s p c
unfolding step_in
step_in-none_iff uri p c h = ground (arith, infer_path-none_iff p.uri)
step_in-none_iff header_start p c h =
    ground
      (arith, push_name-ne-none c (p.headers ++ ([], []) ∷ []), concat-ne-nil ([], []) p.headers)
step_in-none_iff header_lws p c h = ground (arith, push_value-ne-none c p.headers)
step_in-none_iff header_name p c h = ground (arith, push_name-ne-none c p.headers)
step_in-none_iff header_value p c h = ground (arith, push_value-ne-none c p.headers)
step_in-none_iff _ p c h = ground arith

Holds-read_byte : (s : State) (p : Parser) (c : ℕ) → Holds s p → Holds s (read_byte p c)
Holds-read_byte method_start p c h = h
Holds-read_byte _ p c h = h

-- On a parser that keeps its invariant, the handler of a byte reads out of bounds for one input
-- alone: the space that ends an empty URI.
pub next_char_handler-none_iff :
    (p : Parser) (c : ℕ) → IsSound p → (next_char_handler p c ≡ none) ↔ Faults p.state p c
unfolding next_char_handler
next_char_handler-none_iff p c h =
    step_in-none_iff p.state (read_byte p c) c (Holds-read_byte p.state p c h)

step_in-IsSound :
    (s : State) (p : Parser) (c : ℕ) (q : Parser)
    → p.state ≡ s
    → Holds s p
    → step_in s p c ≡ some (undefined, q)
    → IsSound q
unfolding step_in
step_in-IsSound method_start p c q e h k = ground arith
step_in-IsSound header_start p c q e h k =
    ground (arith, push_name-ne-nil c (p.headers ++ ([], []) ∷ []))
step_in-IsSound header_lws p c q e h k = ground (arith, push_value-ne-nil c p.headers)
step_in-IsSound header_name p c q e h k = ground (arith, push_name-ne-nil c p.headers)
step_in-IsSound header_value p c q e h k = ground (arith, push_value-ne-nil c p.headers)
step_in-IsSound newline_3 p c q e h k =
    ground (arith, stoull-FitsWord (get_header_value p.headers (codes "Content-Length")))
step_in-IsSound _ p c q e h k = ground arith

-- A byte that leaves the result undefined keeps the invariant of the parser: no path is set before
-- the URI ends, there is a header where one is extended, and in the body the number of bytes to come
-- is positive and fits a 64-bit word.
pub next_char_handler-IsSound :
    (p : Parser) (c : ℕ) (q : Parser)
    → IsSound p
    → next_char_handler p c ≡ some (undefined, q)
    → IsSound q
unfolding next_char_handler
next_char_handler-IsSound p c q h =
    step_in-IsSound p.state (read_byte p c) c q refl (Holds-read_byte p.state p c h)
