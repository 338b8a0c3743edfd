-- ===== src/Port/Search.antt =====
-- The search for the port ends, and finds the first one.
use cs130capstoneproject.Base.{
  ℕ, zero, suc, ◌+◌, ◌≤◌, ◌<◌, ◌≡◌, ◌≢◌, refl, ap, ◌∙◌, ◌⊎◌, inl, inr, true, false, Option, none,
  some, List, [], ◌∷◌, ◌++◌, arith, length, length-append, All, Option-cases, Bool,
}
use cs130capstoneproject.Base.Bytes.{Bytes, codes, equal, is_digit}
use cs130capstoneproject.RequestParser.Numbers.{AreDigits}
use cs130capstoneproject.Http.Decimal.{
  to_string, to_string-value, to_string-AreDigits, to_string-ne-nil,
}
use cs130capstoneproject.Config.Lexer.{
  TokenState, initial_whitespace, single_quote, double_quote, in_comment, in_normal, ends_token,
  step_token, step_initial, token_from, parse_token, get_token,
}
use cs130capstoneproject.Config.Lexing.{
  IsPlain, begins_plain, parse_token-IsToken, parse_token-space,
}
use cs130capstoneproject.Port.Number.{
  is_valid, is_numeric, push_if, port_queue, set_port, out_of_fuel, check_queue, check_port_num,
}

length-rest_token_from :
    (st : TokenState) (v s : Bytes) → length (token_from st v s).rest ≤ length s
unfolding token_from step_token step_initial
length-rest_token_from st v [] = omega arith
length-rest_token_from initial_whitespace v (c ∷ s) = ground (
  arith,
  length-rest_token_from initial_whitespace v s,
  length-rest_token_from single_quote (c ∷ []) s,
  length-rest_token_from double_quote (c ∷ []) s,
  length-rest_token_from in_comment (c ∷ []) s,
  length-rest_token_from in_normal (v ++ c ∷ []) s,
)
length-rest_token_from single_quote v (c ∷ s) =
    ground (arith, length-rest_token_from single_quote (v ++ c ∷ []) s)
length-rest_token_from double_quote v (c ∷ s) =
    ground (arith, length-rest_token_from double_quote (v ++ c ∷ []) s)
length-rest_token_from in_comment v (c ∷ s) =
    ground (arith, length-rest_token_from in_comment (v ++ c ∷ []) s)
length-rest_token_from in_normal v (c ∷ s) =
    ground (arith, length-rest_token_from in_normal (v ++ c ∷ []) s)

token_from-shortens :
    (s : Bytes)
    → ((token_from initial_whitespace [] s).value ≡ [])
      ⊎ (length (token_from initial_whitespace [] s).rest < length s)
unfolding token_from step_token step_initial
token_from-shortens [] = inl refl
token_from-shortens (c ∷ s) = ground (
  arith,
  token_from-shortens s,
  length-rest_token_from single_quote (c ∷ []) s,
  length-rest_token_from double_quote (c ∷ []) s,
  length-rest_token_from in_comment (c ∷ []) s,
  length-rest_token_from in_normal (c ∷ []) s,
)

-- A token that is not empty takes a byte.
get_token-shortens : (s : Bytes) → ((get_token s).0 ≡ []) ⊎ (length (get_token s).1 < length s)
unfolding get_token parse_token
get_token-shortens s = token_from-shortens s

push_if-ne-none :
    (b : Bool) (t : Bytes) (queue : Option (List Bytes)) → queue ≢ none → push_if b t queue ≢ none
push_if-ne-none true t none h e = h refl
push_if-ne-none true t (some q) h e = cc
push_if-ne-none false t queue h e = h e

port_queue-ne-none :
    (f : ℕ) (last v rest : Bytes)
    → 0 < f
    → (v ≡ []) ⊎ (length rest + 1 < f)
    → port_queue f last v rest ≢ none
unfolding port_queue
port_queue-ne-none zero last v rest h k e = omega arith
port_queue-ne-none (suc f) last [] rest h k e = cc
port_queue-ne-none (suc f) last (c ∷ t) rest h (inl k) e = cc
port_queue-ne-none (suc f) last (c ∷ t) rest h (inr k) e =
    push_if-ne-none (equal last (codes "port")) (c ∷ t) _
      (port_queue-ne-none f (c ∷ t) (get_token rest).0 (get_token rest).1 (omega arith)
        (ground (arith, get_token-shortens rest)))
      e

-- The queue of a text, and the search does not run out of fuel.
port_queue-exists :
    (input : Bytes)
    → (queue : List Bytes) × (port_queue
          (suc (length input))
          []
          (get_token input).0
          (get_token input).1
        ≡ some queue)
port_queue-exists input =
    elim (Option-cases
      (port_queue (suc (length input)) [] (get_token input).0 (get_token input).1)) [
        | inl e ↦ absurd (
            port_queue-ne-none (suc (length input)) [] (get_token input).0 (get_token input).1
              (omega arith) (ground (arith, get_token-shortens input)) e)
        | inr found ↦ found
      ]

check_queue-ne-out_of_fuel : (queue : List Bytes) → check_queue (some queue) ≢ out_of_fuel
check_queue-ne-out_of_fuel [] e = cc
check_queue-ne-out_of_fuel (t ∷ queue) e = ground arith

-- `checkPortNum` ends on every text: its loop over the tokens is over when they are.
pub check_port_num-ne-out_of_fuel : (input : Bytes) → check_port_num input ≢ out_of_fuel
unfolding check_port_num
check_port_num-ne-out_of_fuel input =
    let (queue, e) = port_queue-exists input in rw e (check_queue-ne-out_of_fuel queue)

is_numeric-AreDigits : (s : Bytes) → AreDigits s → is_numeric s ≡ true
unfolding is_numeric
is_numeric-AreDigits [] h = refl
is_numeric-AreDigits (c ∷ s) (h, hs) = rw (h, is_numeric-AreDigits s hs) refl

digit-ends_token : (c : ℕ) → is_digit c ≡ true → ends_token c ≡ false
unfolding is_digit ends_token
digit-ends_token c h = ground arith

digit-begins_plain : (c : ℕ) → is_digit c ≡ true → begins_plain c ≡ true
unfolding is_digit
digit-begins_plain c h = ground arith

digits-end_no_token : (s : Bytes) → AreDigits s → All (λ x. ends_token x ≡ false) s
digits-end_no_token [] h = tt
digits-end_no_token (c ∷ s) (h, hs) = (digit-ends_token c h, digits-end_no_token s hs)

AreDigits-IsPlain : (s : Bytes) → s ≢ [] → AreDigits s → IsPlain s
AreDigits-IsPlain [] ne h = absurd (ne refl)
AreDigits-IsPlain (c ∷ s) ne (h, hs) = (digit-begins_plain c h, digits-end_no_token s hs)

-- The token behind "port" is the first of the queue.
port_queue-number :
    (f : ℕ) (t rest : Bytes)
    → t ≢ []
    → length rest + 1 < suc f
    → (queue : List Bytes) × (port_queue (suc f) (codes "port") t rest ≡ some (t ∷ queue))
unfolding port_queue equal
port_queue-number f [] rest ne h = absurd (ne refl)
port_queue-number f (c ∷ t) rest ne h =
    elim (Option-cases (port_queue f (c ∷ t) (get_token rest).0 (get_token rest).1)) [
      | inl e ↦ absurd (
          port_queue-ne-none f (c ∷ t) (get_token rest).0 (get_token rest).1 (omega arith)
            (ground (arith, get_token-shortens rest)) e)
      | inr (queue, e) ↦ (queue, rw e refl)
    ]

check_queue-number :
    (n : ℕ) (queue : List Bytes)
    → 0 < n
    → n < 65536
    → check_queue (some (to_string n ∷ queue)) ≡ set_port n
unfolding is_valid
check_queue-number n queue pos small =
    rw (is_numeric-AreDigits (to_string n) (to_string-AreDigits n), to_string-value n)
      (ground arith)

get_token-port : (s : Bytes) → get_token (codes "port" ++ b' ' ∷ s) ≡ (codes "port", b' ' ∷ s)
unfolding get_token parse_token token_from step_token step_initial ends_token
get_token-port s = refl

get_token-number :
    (t rest : Bytes) (d : ℕ)
    → t ≢ []
    → AreDigits t
    → ends_token d ≡ true
    → get_token (b' ' ∷ (t ++ d ∷ rest)) ≡ (t, d ∷ rest)
unfolding get_token parse_token
get_token-number t rest d ne h e =
    ap (λ k. (k.value, k.rest))
      (parse_token-space (t ++ d ∷ rest)
        ∙ parse_token-IsToken t rest d (inl (AreDigits-IsPlain t ne h)) e)

port_queue-port :
    (f : ℕ) (rest : Bytes)
    → port_queue (suc f) [] (codes "port") rest
      ≡ port_queue f (codes "port") (get_token rest).0 (get_token rest).1
unfolding port_queue equal
port_queue-port f rest = refl

-- A file that begins with the word "port", a space, a number from 1 to 65535 in decimal, and a byte
-- that ends a token sets that port, whatever follows.
pub check_port_num-reads :
    (n d : ℕ) (rest : Bytes)
    → 0 < n
    → n < 65536
    → ends_token d ≡ true
    → check_port_num (codes "port" ++ b' ' ∷ (to_string n ++ d ∷ rest)) ≡ set_port n
unfolding check_port_num
check_port_num-reads n d rest pos small e =
    let s = to_string n ++ d ∷ rest in
    let f = suc (suc (suc (suc (length s)))) in
    let number =
      get_token-number (to_string n) rest d (to_string-ne-nil n) (to_string-AreDigits n) e in
    let (queue, found) =
      port_queue-number f (to_string n) (d ∷ rest) (to_string-ne-nil n)
        (omega (arith, length-append (to_string n) (d ∷ rest))) in
    rw (get_token-port s, port_queue-port (suc f) (b' ' ∷ s), number, found)
      (check_queue-number n queue pos small)

check_queue-valid :
    (queue : Option (List Bytes)) (n : ℕ) → check_queue queue ≡ set_port n → (0 < n) × (n < 65536)
unfolding is_valid
check_queue-valid none n e = cc
check_queue-valid (some []) n e = cc
check_queue-valid (some (t ∷ queue)) n e = ground arith

-- Whatever the file holds, a port that is set is from 1 to 65535.
pub check_port_num-valid :
    (input : Bytes) (n : ℕ) → check_port_num input ≡ set_port n → (0 < n) × (n < 65536)
unfolding check_port_num
check_port_num-valid input n e = check_queue-valid _ n e
