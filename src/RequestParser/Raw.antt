-- ===== src/RequestParser/Raw.antt =====
-- The text that the parser keeps, and `RequestParser::SetUri`, which changes the URI in it.
use cs130capstoneproject.Base.{
  ℕ, suc, ◌≡◌, refl, ap, ◌∙◌, sym, inl, inr, Option, none, some, [], ◌∷◌, ◌++◌, ◌==◌, arith, All,
  length, take, drop, append_assoc, append-nil, false,
}
use mathlib.Core.Option.{some_inj}
use cs130capstoneproject.Base.Bytes.{Bytes, codes, find}
use cs130capstoneproject.Base.Find.{find_byte, drop_behind}
use cs130capstoneproject.RequestParser.Request.{Request}
use cs130capstoneproject.RequestParser.State.{
  undefined, State, Parser, method_start, method, uri, version_h, version_first_t, version_second_t,
  version_p, version_slash, version_major_start, version_major, version_minor_start, version_minor,
  newline_1, header_start, header_lws, header_name, space_before_header_value, header_value,
  newline_2, newline_3, body,
}
use cs130capstoneproject.RequestParser.Step.{step_in, next_char_handler}
use cs130capstoneproject.RequestParser.Parse.{Parsed, parse}
use cs130capstoneproject.RequestParser.Steps.{Outcome-cases, parse-fault, parse-more, parse-end}

-- find(" ") + 1, where one behind `npos` is 0
abbrev pub behind_space : Option ℕ → ℕ
behind_space none = 0
behind_space (some n) = suc n

-- The text from the end of the URI on; `replace` up to `npos` leaves none.
abbrev pub from_end : Option ℕ → Bytes → Bytes
from_end none rest = []
from_end (some n) rest = drop n rest

-- `SetUri`
unfoldable pub set_uri : Bytes → Parser → Parser
set_uri new p =
    let pos = behind_space (find (codes " ") p.raw_request) in
    let rest = drop pos p.raw_request in
    record p {
      uri = new;
      raw_request = take pos p.raw_request ++ (new ++ from_end (find (codes " ") rest) rest);
    }

step_in-raw :
    (st : State) (p q : Parser) (c : ℕ)
    → step_in st p c ≡ some (undefined, q)
    → q.raw_request ≡ p.raw_request
unfolding step_in
step_in-raw method_start p q c e = ground (arith, e)
step_in-raw method p q c e = ground (arith, e)
step_in-raw uri p q c e = ground (arith, e)
step_in-raw version_h p q c e = ground (arith, e)
step_in-raw version_first_t p q c e = ground (arith, e)
step_in-raw version_second_t p q c e = ground (arith, e)
step_in-raw version_p p q c e = ground (arith, e)
step_in-raw version_slash p q c e = ground (arith, e)
step_in-raw version_major_start p q c e = ground (arith, e)
step_in-raw version_major p q c e = ground (arith, e)
step_in-raw version_minor_start p q c e = ground (arith, e)
step_in-raw version_minor p q c e = ground (arith, e)
step_in-raw newline_1 p q c e = ground (arith, e)
step_in-raw header_start p q c e = ground (arith, e)
step_in-raw header_lws p q c e = ground (arith, e)
step_in-raw header_name p q c e = ground (arith, e)
step_in-raw space_before_header_value p q c e = ground (arith, e)
step_in-raw header_value p q c e = ground (arith, e)
step_in-raw newline_2 p q c e = ground (arith, e)
step_in-raw newline_3 p q c e = ground (arith, e)
step_in-raw body p q c e = ground (arith, e)

next_char_handler-raw :
    (p q : Parser) (c : ℕ)
    → next_char_handler p c ≡ some (undefined, q)
    → q.raw_request ≡ p.raw_request ++ c ∷ []
unfolding next_char_handler
next_char_handler-raw p q c e =
    step_in-raw p.state (record p { raw_request = p.raw_request ++ c ∷ [] }) q c e

-- While the result of `Parse` is undefined, the parser keeps the whole text that it has read.
pub parse-raw :
    (p : Parser) (req : Request) (s : Bytes) (d : Parsed)
    → parse p req s ≡ some d
    → d.result ≡ undefined
    → d.parser.raw_request ≡ p.raw_request ++ s
unfolding parse
parse-raw p req [] d e h =
    ap (λ d'. d'.parser.raw_request) (sym (some_inj.0 e)) ∙ sym (append-nil p.raw_request)
parse-raw p req (c ∷ s) d e h = elim (Outcome-cases (next_char_handler p c)) [
  | inl fault ↦ cc (parse-fault p req c s fault)
  | inr (inl (q, step)) ↦
      parse-raw q req s d (sym (parse-more p req c s q step) ∙ e) h
      ∙ ap (λ t. t ++ s) (next_char_handler-raw p q c step)
      ∙ append_assoc p.raw_request (c ∷ []) s
  | inr (inr (r, q, last, step)) ↦
      absurd
        (last (ap (λ d'. d'.result) (some_inj.0 (sym (parse-end p req c s r q last step) ∙ e)) ∙ h))
]

-- Two words and what stands behind them.
abbrev pub words : Bytes → Bytes → Bytes → Bytes
words m u rest = m ++ b' ' ∷ (u ++ b' ' ∷ rest)

take_behind : (s r : Bytes) (c : ℕ) → take (suc (length s)) (s ++ c ∷ r) ≡ s ++ c ∷ []
take_behind [] r c = refl
take_behind (x ∷ s) r c = ap (◌∷◌ x) (take_behind s r c)

drop_words : (u rest : Bytes) → drop (length u) (u ++ rest) ≡ rest
drop_words [] rest = refl
drop_words (c ∷ u) rest = drop_words u rest

-- A parser without text that has read two words and a space, and whatever stands behind, on which
-- `Parse` is undecided: `SetUri` sets the URI, and replaces the second word in the text by it.
pub set_uri-words :
    (p : Parser) (req : Request) (m u new rest : Bytes) (d : Parsed)
    → p.raw_request ≡ []
    → All (λ c. (c == b' ') ≡ false) m
    → All (λ c. (c == b' ') ≡ false) u
    → parse p req (words m u rest) ≡ some d
    → d.result ≡ undefined
    → ((set_uri new d.parser).uri ≡ new) × ((set_uri new d.parser).raw_request ≡ words m new rest)
unfolding set_uri
set_uri-words p req m u new rest d empty hm hu e h =
    let raw : d.parser.raw_request ≡ words m u rest =
      parse-raw p req (words m u rest) d e h ∙ ap (λ t. t ++ words m u rest) empty in
    (
      refl,
      rw
          (
            raw,
            find_byte b' ' m (u ++ b' ' ∷ rest) hm,
            take_behind m (u ++ b' ' ∷ rest) b' ',
            drop_behind m (u ++ b' ' ∷ rest) b' ',
            find_byte b' ' u rest hu,
            drop_words u (b' ' ∷ rest),
          )
          (append_assoc m (b' ' ∷ []) (new ++ b' ' ∷ rest)),
    )
