-- ===== src/Config/Termination.antt =====
-- The loop of `Parse` ends, with fuel for one round more than there are bytes.
use cs130capstoneproject.Base.{
  ℕ, zero, suc, ◌+◌, ◌≤◌, ◌<◌, ◌≡◌, ◌≢◌, refl, ◌⊎◌, inl, inr, Bool, [], ◌∷◌, ◌++◌, arith, length,
  Option-cases,
}
use cs130capstoneproject.Base.Bytes.{Bytes}
use cs130capstoneproject.Config.Lexer.{
  TokenType, eof, error, TokenState, initial_whitespace, single_quote, double_quote, in_comment,
  in_normal, Token, step_token, token_from, parse_token,
}
use cs130capstoneproject.Config.Parser.{
  State, Step, next, done, fault, step, step_type, track_braces, returned, undefined, out_of_fuel,
  loop,
}

pub Step-cases :
    (r : Step)
    → ((s : State) × (r ≡ next s)) ⊎ ((b : Bool) × (s : State) × (r ≡ done b s)) ⊎ (r ≡ fault)
Step-cases (next s) = inl (s, refl)
Step-cases (done b s) = inr (inl (b, s, refl))
Step-cases fault = inr (inr refl)

-- The types at the end of the input.
abbrev IsEnd : TokenType → Type 0
IsEnd eof = Unit
IsEnd error = Unit
IsEnd _ = ⊥

-- The bytes that a state has left to read before it may return without reading one.
abbrev due : TokenState → ℕ
due initial_whitespace = 1
due _ = 0

abbrev Progress : TokenState → Bytes → Token → Type 0
Progress st s t = IsEnd t.type ⊎ (length t.rest + due st ≤ length s)

token_from-Progress : (st : TokenState) (v s : Bytes) → Progress st s (token_from st v s)
unfolding token_from step_token
token_from-Progress initial_whitespace v [] = inl tt
token_from-Progress single_quote v [] = inl tt
token_from-Progress double_quote v [] = inl tt
token_from-Progress in_comment v [] = inl tt
token_from-Progress in_normal v [] = inl tt
token_from-Progress initial_whitespace v (c ∷ s) = ground (
  arith,
  token_from-Progress initial_whitespace v s,
  token_from-Progress single_quote (c ∷ []) s,
  token_from-Progress double_quote (c ∷ []) s,
  token_from-Progress in_comment (c ∷ []) s,
  token_from-Progress in_normal (v ++ c ∷ []) s,
)
token_from-Progress single_quote v (c ∷ s) =
    ground (arith, token_from-Progress single_quote (v ++ c ∷ []) s)
token_from-Progress double_quote v (c ∷ s) =
    ground (arith, token_from-Progress double_quote (v ++ c ∷ []) s)
token_from-Progress in_comment v (c ∷ s) =
    ground (arith, token_from-Progress in_comment (v ++ c ∷ []) s)
token_from-Progress in_normal v (c ∷ s) =
    ground (arith, token_from-Progress in_normal (v ++ c ∷ []) s)

step_type-IsEnd :
    (ty : TokenType) (s s' : State) (v : Bytes) → IsEnd ty → step_type ty s v ≢ next s'
unfolding step_type
step_type-IsEnd eof s s' v h e = ground arith
step_type-IsEnd error s s' v h e = ground arith
step_type-IsEnd _ s s' v h e = absurd h

step-IsEnd : (s s' : State) (t : Token) → IsEnd t.type → step s t ≢ next s'
unfolding step
step-IsEnd s s' t h e = elim (Option-cases (track_braces t.value s.braces)) [
  | inl unmatched ↦ ground arith
  | inr (n, tracked) ↦ step_type-IsEnd t.type (record s { braces = n }) s' t.value h (ground arith)
]

module _ (f : ℕ) (s : State) (input : Bytes) where
  pub loop-next :
      (s' : State)
      → step s (parse_token input) ≡ next s'
      → loop (suc f) s input ≡ loop f s' (parse_token input).rest
  unfolding loop
  loop-next s' e = ground arith

  pub loop-done :
      (b : Bool) (s' : State)
      → step s (parse_token input) ≡ done b s'
      → loop (suc f) s input ≡ returned b s'
  unfolding loop
  loop-done b s' e = ground arith

  pub loop-fault : step s (parse_token input) ≡ fault → loop (suc f) s input ≡ undefined
  unfolding loop
  loop-fault e = ground arith

next-shortens :
    (s s' : State) (input : Bytes)
    → step s (parse_token input) ≡ next s'
    → length (parse_token input).rest < length input
unfolding parse_token
next-shortens s s' input e = elim (token_from-Progress initial_whitespace [] input) [
  | inl end ↦ absurd (step-IsEnd s s' (parse_token input) end e)
  | inr shorter ↦ omega arith
]

-- Enough fuel for the loop, whatever its state and its input.
pub loop-ne-out_of_fuel :
    (f : ℕ) (s : State) (input : Bytes) → length input < f → loop f s input ≢ out_of_fuel
loop-ne-out_of_fuel zero s input h e = absurd (omega arith)
loop-ne-out_of_fuel (suc f) s input h e = elim (Step-cases (step s (parse_token input))) [
  | inl (s', more) ↦
      loop-ne-out_of_fuel f s' (parse_token input).rest
        (omega (arith, next-shortens s s' input more)) (rw (loop-next f s input s' more) at e)
  | inr (inl (b, s', last)) ↦ cc (loop-done f s input b s' last)
  | inr (inr bad) ↦ cc (loop-fault f s input bad)
]

-- The fuel does not matter where it is enough.
pub loop_fuel :
    (f g : ℕ) (s : State) (input : Bytes)
    → loop f s input ≢ out_of_fuel
    → loop g s input ≢ out_of_fuel
    → loop f s input ≡ loop g s input
loop_fuel zero g s input h k = absurd (h (unfold loop in refl))
loop_fuel (suc f) zero s input h k = absurd (k (unfold loop in refl))
loop_fuel (suc f) (suc g) s input h k = elim (Step-cases (step s (parse_token input))) [
  | inl (s', more) ↦
      rw (loop-next f s input s' more, loop-next g s input s' more)
        (loop_fuel f g s' _ (rw (loop-next f s input s' more) at h)
          (rw (loop-next g s input s' more) at k))
  | inr (inl (b, s', last)) ↦ rw (loop-done f s input b s' last, loop-done g s input b s' last)
  | inr (inr bad) ↦ rw (loop-fault f s input bad, loop-fault g s input bad)
]
