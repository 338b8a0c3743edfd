-- ===== src/RequestParser/Content.antt =====
-- The length of the body of a request that is accepted.
use cs130capstoneproject.Base.{
  ℕ, ◌+◌, ◌<◌, ◌≡◌, refl, inl, inr, some, [], ◌∷◌, arith, length, length-append,
}
use cs130capstoneproject.Base.Bytes.{Bytes, codes}
use cs130capstoneproject.Base.Map.{lookup}
use cs130capstoneproject.RequestParser.Request.{Request}
use cs130capstoneproject.RequestParser.Numbers.{u64_mod, stoull, stoull-FitsWord}
use cs130capstoneproject.RequestParser.State.{
  Result, good, undefined, State, newline_3, body, Parser, fresh, get_header_value,
}
use cs130capstoneproject.RequestParser.Step.{step_in, next_char_handler, read_byte}
use cs130capstoneproject.RequestParser.Parse.{Parsed, parse, finish, write_request}
use cs130capstoneproject.RequestParser.Print.{length_of, content_length}
use cs130capstoneproject.RequestParser.Steps.{Outcome-cases, parse-fault, parse-more, parse-end}
use cs130capstoneproject.RequestParser.HeaderMap.{or_empty, lookup-get_header_map}

-- No body before the body state; in it, what is read and what is to come add up.
abbrev Counts : State → Parser → Type 0
Counts body p =
    (0 < p.remaining)
    × (p.remaining < u64_mod)
    × (length p.body + p.remaining ≡ content_length p.headers)
Counts _ p = p.body ≡ []

step_in-Counts :
    (s : State) (p q : Parser) (c : ℕ)
    → p.state ≡ s
    → Counts s p
    → step_in s p c ≡ some (undefined, q)
    → Counts q.state q
unfolding step_in
step_in-Counts newline_3 p q c e h k =
    ground (arith, stoull-FitsWord (get_header_value p.headers (codes "Content-Length")))
step_in-Counts body p q c e h k = ground (arith, length-append p.body (c ∷ []))
step_in-Counts _ p q c e h k = ground arith

step_in-good :
    (s : State) (p q : Parser) (c : ℕ)
    → Counts s p
    → step_in s p c ≡ some (good, q)
    → length q.body ≡ content_length q.headers
unfolding step_in
step_in-good newline_3 p q c h k =
    ground (arith, stoull-FitsWord (get_header_value p.headers (codes "Content-Length")))
step_in-good body p q c h k = ground (arith, length-append p.body (c ∷ []))
step_in-good _ p q c h k = ground arith

Counts-read_byte : (s : State) (p : Parser) (c : ℕ) → Counts s p → Counts s (read_byte p c)
Counts-read_byte body p c h = h
Counts-read_byte _ p c h = h

next_char_handler-Counts :
    (p q : Parser) (c : ℕ)
    → Counts p.state p
    → next_char_handler p c ≡ some (undefined, q)
    → Counts q.state q
unfolding next_char_handler
next_char_handler-Counts p q c h =
    step_in-Counts p.state (read_byte p c) q c refl (Counts-read_byte p.state p c h)

next_char_handler-good :
    (p q : Parser) (c : ℕ)
    → Counts p.state p
    → next_char_handler p c ≡ some (good, q)
    → length q.body ≡ content_length q.headers
unfolding next_char_handler
next_char_handler-good p q c h =
    step_in-good p.state (read_byte p c) q c (Counts-read_byte p.state p c h)

-- The length that the map of headers announces.
abbrev pub announced : Request → ℕ
announced req = length_of (stoull (or_empty (lookup (codes "Content-Length") req.headers)))

finish-announced :
    (r : Result) (q : Parser) (s : Bytes) (d : Parsed)
    → length q.body ≡ content_length q.headers
    → finish r q s ≡ some d
    → length d.request.body ≡ announced d.request
finish-announced r q s d h e =
    let e' : write_request q ≡ d.request = ground arith in rw (← e') (rw lookup-get_header_map h)

parse-good :
    (s : Bytes) (p : Parser) (req : Request) (d : Parsed)
    → Counts p.state p
    → parse p req s ≡ some d
    → d.result ≡ good
    → length d.request.body ≡ announced d.request
parse-good [] p req d h e g = absurd (unfold parse in ground arith)
parse-good (c ∷ s) p req d h e g = elim (Outcome-cases (next_char_handler p c)) [
  | inl fault ↦ cc (parse-fault p req c s fault)
  | inr (inl (q, step)) ↦
      parse-good s q req d (next_char_handler-Counts p q c h step)
        (rw (parse-more p req c s q step) at e) g
  | inr (inr (r, q, last, step)) ↦
      let e' = rw (parse-end p req c s r q last step) at e in
      let r-good : r ≡ good = ground arith in
      finish-announced r q s d (next_char_handler-good p q c h (rw r-good at step)) e'
]

-- On any input that a new parser accepts, the request has exactly as many bytes in its body as its
-- Content-Length header says, and none where that header is missing or no number.
pub parse-content :
    (r : ℕ) (req : Request) (s : Bytes) (d : Parsed)
    → parse (fresh r) req s ≡ some d
    → d.result ≡ good
    → length d.request.body ≡ announced d.request
parse-content r req s d = parse-good s (fresh r) req d refl
