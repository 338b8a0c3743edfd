-- ===== src/RequestParser/Chunks.antt =====
-- Input that arrives in pieces, and what `Parse` consumes of it.
use cs130capstoneproject.Base.{
  ℕ, ◌≡◌, ◌≢◌, refl, ap, ◌∙◌, inl, inr, Option, none, some, [], ◌∷◌, ◌++◌, arith,
}
use cs130capstoneproject.Base.Bytes.{Bytes}
use cs130capstoneproject.RequestParser.Request.{Request}
use cs130capstoneproject.RequestParser.State.{Result, good, bad, undefined, Parser}
use cs130capstoneproject.RequestParser.Step.{next_char_handler}
use cs130capstoneproject.RequestParser.Parse.{Parsed, parse, finish}
use cs130capstoneproject.RequestParser.Steps.{Outcome-cases, parse-fault, parse-more, parse-end}

-- What a caller does with the next piece: it parses on if the result is undefined, and leaves the
-- piece unread if the request is decided.
abbrev resume : Bytes → Result → Parsed → Option Parsed
resume b undefined d = parse d.parser d.request b
resume b _ d = some (record d { unread = d.unread ++ b })

abbrev pub continue : Bytes → Option Parsed → Option Parsed
continue b none = none
continue b (some d) = resume b d.result d

-- Parsing two pieces one after the other is parsing them at once, wherever the input is cut, and
-- on every outcome, undefined behaviour included.
pub parse-append :
    (p : Parser) (req : Request) (a b : Bytes) → parse p req (a ++ b) ≡ continue b (parse p req a)
parse-append p req [] b = unfold parse in refl
parse-append p req (c ∷ a) b = elim (Outcome-cases (next_char_handler p c)) [
  | inl fault ↦ rw (parse-fault p req c (a ++ b) fault, parse-fault p req c a fault)
  | inr (inl (q, step)) ↦
      rw (parse-more p req c (a ++ b) q step, parse-more p req c a q step) (parse-append q req a b)
  | inr (inr (good, q, last, step)) ↦
      rw (parse-end p req c (a ++ b) good q last step, parse-end p req c a good q last step)
  | inr (inr (bad, q, last, step)) ↦
      rw (parse-end p req c (a ++ b) bad q last step, parse-end p req c a bad q last step)
  | inr (inr (undefined, q, last, step)) ↦ absurd (last refl)
]

-- The bytes that decided a result.
pub record Consumed (p : Parser) (req : Request) (s : Bytes) (d : Parsed) : Type 0 where
  pub read : Bytes
  pub splits : s ≡ read ++ d.unread
  pub decides : parse p req read ≡ some (record d { unread = [] })

parse-Consumed_nil :
    (p : Parser) (req : Request) (d : Parsed) → parse p req [] ≡ some d → Consumed p req [] d
unfolding parse
parse-Consumed_nil p req d e = record { read = []; splits = ground arith; decides = ground arith }

parse-Consumed_end :
    (p : Parser) (req : Request) (c : ℕ) (s : Bytes) (d : Parsed) (r : Result) (q : Parser)
    → r ≢ undefined
    → next_char_handler p c ≡ some (r, q)
    → finish r q s ≡ some d
    → Consumed p req (c ∷ s) d
parse-Consumed_end p req c s d r q last step e = record {
  read = c ∷ [];
  splits = ground arith;
  decides = parse-end p req c [] r q last step ∙ ground arith;
}

-- What `Parse` leaves unread is the end of its input, and it had no influence on the result.
pub parse-Consumed :
    (p : Parser) (req : Request) (s : Bytes) (d : Parsed)
    → parse p req s ≡ some d
    → Consumed p req s d
parse-Consumed p req [] d e = parse-Consumed_nil p req d e
parse-Consumed p req (c ∷ s) d e = elim (Outcome-cases (next_char_handler p c)) [
  | inl fault ↦ cc (parse-fault p req c s fault)
  | inr (inl (q, step)) ↦
      let rest = parse-Consumed q req s d (rw (parse-more p req c s q step) at e) in
      record {
        read = c ∷ rest.read;
        splits = ap (◌∷◌ c) rest.splits;
        decides = parse-more p req c rest.read q step ∙ rest.decides;
      }
  | inr (inr (r, q, last, step)) ↦
      parse-Consumed_end p req c s d r q last step (rw (parse-end p req c s r q last step) at e)
]
