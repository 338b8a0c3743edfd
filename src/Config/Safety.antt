-- ===== src/Config/Safety.antt =====
-- `Parse` never takes `back()` of an empty list, and returns on every input.
use cs130capstoneproject.Base.{
  ℕ, zero, suc, ◌+◌, ◌≡◌, ◌≢◌, refl, ◌⊎◌, inl, inr, Bool, false, some, none, Option, List, [], ◌∷◌,
  ◌++◌, ◌==◌, arith, length, Option-cases, All,
}
use cs130capstoneproject.Base.Bytes.{Bytes}
use cs130capstoneproject.Config.Syntax.{Statement, Config, nil, cons, simple}
use cs130capstoneproject.Config.Lexer.{
  TokenState, initial_whitespace, single_quote, double_quote, in_comment, in_normal, step_token,
  token_from, TokenType, start, normal, start_block, end_block, Token, parse_token,
}
use cs130capstoneproject.Config.Parser.{
  append, update_last, close_block, push_token, set_child, State, Step, next, done, fault, step,
  step_type, track_braces, Outcome, returned, undefined, out_of_fuel, loop, initial, parse,
}
use cs130capstoneproject.Config.Termination.{Step-cases, loop-next, loop-done, loop-ne-out_of_fuel}

-- Whether there is a last statement.
abbrev HasLast : Config → Type 0
HasLast nil = ⊥
HasLast (cons s c) = Unit

-- What a normal token as the last one promises.
abbrev LastHolds : TokenType → Config → Type 0
LastHolds normal top = HasLast top
LastHolds _ top = Unit

-- Every parent of an open block has the statement that holds it, and there is a brace for each.
pub record IsSound (s : State) : Type 0 where
  pub top_last : LastHolds s.last s.top
  pub parents : All HasLast s.below
  pub balanced : s.braces ≡ length s.below

append-HasLast : (c : Config) (s : Statement) → HasLast (append c s)
unfolding append
append-HasLast nil s = tt
append-HasLast (cons t c) s = tt

abbrev Updated : Option Config → Type 0
Updated none = ⊥
Updated (some c) = HasLast c

update_last-Updated :
    (f : Statement → Statement) (c : Config) → HasLast c → Updated (update_last f c)
unfolding update_last
update_last-Updated f nil h = h
update_last-Updated f (cons s nil) h = tt
update_last-Updated f (cons s (cons t c)) h = ground (arith, update_last-Updated f (cons t c))

abbrev Sound : Step → Type 0
Sound (next s) = IsSound s
Sound (done b s) = Unit
Sound fault = ⊥

-- A value that begins with neither brace.
abbrev IsNeutral : Bytes → Type 0
IsNeutral [] = ⊥
IsNeutral (c ∷ _) = ((c == b'{') ≡ false) × ((c == b'}') ≡ false)

-- What the type of a token says of its value.
abbrev Tracks : TokenType → Bytes → Type 0
Tracks start v = ⊥
Tracks start_block v = v ≡ b'{' ∷ []
Tracks end_block v = v ≡ b'}' ∷ []
Tracks _ v = (v ≡ []) ⊎ IsNeutral v

abbrev Ready : TokenState → Bytes → Type 0
Ready initial_whitespace v = v ≡ []
Ready _ v = IsNeutral v

IsNeutral-concat : (v : Bytes) (c : ℕ) → IsNeutral v → IsNeutral (v ++ c ∷ [])
IsNeutral-concat [] c h = absurd h
IsNeutral-concat (x ∷ v) c h = h

abbrev HasTracks : Token → Type 0
HasTracks t = Tracks t.type t.value

token_from-Tracks : (st : TokenState) (v s : Bytes) → Ready st v → HasTracks (token_from st v s)
unfolding token_from step_token
token_from-Tracks initial_whitespace v [] h = inl h
token_from-Tracks single_quote v [] h = inr h
token_from-Tracks double_quote v [] h = inr h
token_from-Tracks in_comment v [] h = inr h
token_from-Tracks in_normal v [] h = inr h
token_from-Tracks initial_whitespace [] (c ∷ s) h = ground (
  arith,
  token_from-Tracks initial_whitespace [] s,
  token_from-Tracks single_quote (c ∷ []) s,
  token_from-Tracks double_quote (c ∷ []) s,
  token_from-Tracks in_comment (c ∷ []) s,
  token_from-Tracks in_normal (c ∷ []) s,
)
token_from-Tracks initial_whitespace (x ∷ v) (c ∷ s) h = absurd (ground arith)
token_from-Tracks single_quote v (c ∷ s) h =
    ground (arith, token_from-Tracks single_quote (v ++ c ∷ []) s, IsNeutral-concat v c h)
token_from-Tracks double_quote v (c ∷ s) h =
    ground (arith, token_from-Tracks double_quote (v ++ c ∷ []) s, IsNeutral-concat v c h)
token_from-Tracks in_comment v (c ∷ s) h =
    ground (arith, token_from-Tracks in_comment (v ++ c ∷ []) s, IsNeutral-concat v c h)
token_from-Tracks in_normal v (c ∷ s) h =
    ground (arith, token_from-Tracks in_normal (v ++ c ∷ []) s, IsNeutral-concat v c h)

close_block-Sound :
    (s : State) (below : List Config)
    → All HasLast below
    → s.braces + 1 ≡ length below
    → Sound (close_block s below)
close_block-Sound s [] h e = tt
close_block-Sound s (c ∷ cs) (h, hs) e = ground (arith, update_last-Updated (set_child s.top) c h)

-- the braces after a closing one
tracked_end : (v : Bytes) (b n : ℕ) → v ≡ b'}' ∷ [] → track_braces v b ≡ some n → n + 1 ≡ b
unfolding track_braces
tracked_end v b n h e = ground arith

step_type-Sound :
    (ty : TokenType) (s : State) (v : Bytes) (n : ℕ)
    → IsSound s
    → Tracks ty v
    → track_braces v s.braces ≡ some n
    → Sound (step_type ty (record s { braces = n }) v)
unfolding step_type track_braces
step_type-Sound start s v n h k e = absurd k
step_type-Sound normal s v n h k e = ground (
  arith,
  update_last-Updated (push_token v) s.top,
  update_last-Updated (push_token v) (append s.top (simple [])),
  append-HasLast s.top (simple []),
)
step_type-Sound start_block s v n h k e = ground (arith, update_last-Updated (set_child nil) s.top)
step_type-Sound end_block s v n h k e =
    ground (
      arith,
      close_block-Sound (record s { braces = n }) s.below h.parents,
      tracked_end v s.braces n,
    )
step_type-Sound _ s v n h k e = ground arith

step-Sound : (s : State) (input : Bytes) → IsSound s → Sound (step s (parse_token input))
unfolding step parse_token
step-Sound s input h =
    let tracks = token_from-Tracks initial_whitespace [] input refl in
    elim (Option-cases (track_braces (parse_token input).value s.braces)) [
      | inl unmatched ↦ rw (unmatched, step) tt
      | inr (n, tracked) ↦ rw (tracked, step) (step_type-Sound _ s _ n h tracks tracked)
    ]

loop-Sound : (f : ℕ) (s : State) (input : Bytes) → IsSound s → loop f s input ≢ undefined
loop-Sound zero s input h e = unfold loop in cc
loop-Sound (suc f) s input h e = elim (Step-cases (step s (parse_token input))) [
  | inl (s', more) ↦
      loop-Sound f s' _ (rw more at (step-Sound s input h)) (rw (loop-next f s input s' more) at e)
  | inr (inl (b, s', last)) ↦ cc (loop-done f s input b s' last)
  | inr (inr bad) ↦ rw bad at (step-Sound s input h)
]

Outcome-returns :
    (o : Outcome) → o ≢ undefined → o ≢ out_of_fuel → (b : Bool) × (s : State) × (o ≡ returned b s)
Outcome-returns (returned b s) h k = (b, s, refl)
Outcome-returns undefined h k = absurd (h refl)
Outcome-returns out_of_fuel h k = absurd (k refl)

-- `Parse` returns a result on every input: the loop ends, and no statement is taken from an empty
-- list of statements.
pub parse-returns :
    (c : Config) (blocks : List Config) (input : Bytes)
    → (b : Bool) × (s : State) × (parse c blocks input ≡ returned b s)
unfolding parse
parse-returns c blocks input =
    Outcome-returns _
      (loop-Sound (suc (length input)) (initial c blocks) input
        (record { top_last = tt; parents = tt; balanced = refl }))
      (loop-ne-out_of_fuel (suc (length input)) (initial c blocks) input (omega arith))
