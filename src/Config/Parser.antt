-- ===== src/Config/Parser.antt =====
-- `NginxConfigParser::Parse`. The stack of pointers into the tree is the list of the blocks that
-- are open: the block on top, and below it each parent, whose last statement holds the block above.
use cs130capstoneproject.Base.{
  ℕ, zero, suc, ◌+◌, ◌-◌, Bool, true, false, Option, none, some, List, [], ◌∷◌, ◌++◌, ◌==◌, length,
  if◌then◌else◌,
}
use cs130capstoneproject.Base.Bytes.{Bytes}
use cs130capstoneproject.Config.Syntax.{Statement, simple, block, Config, nil, cons}
use cs130capstoneproject.Config.Lexer.{
  TokenType, start, normal, start_block, end_block, comment, statement_end, eof, error, Token,
  parse_token,
}

-- statements_.emplace_back
unfoldable pub append : Config → Statement → Config
append nil s = cons s nil
append (cons t c) s = cons t (append c s)

-- statements_.back(), changed: `none` where there is no statement
unfoldable pub update_last : (Statement → Statement) → Config → Option Config
update_last f nil = none
update_last f (cons s nil) = some (cons (f s) nil)
update_last f (cons s (cons t c)) = elim (update_last f (cons t c)) [
  | none ↦ none
  | some d ↦ some (cons s d)
]

abbrev pub push_token : Bytes → Statement → Statement
push_token t (simple ts) = simple (ts ++ t ∷ [])
push_token t (block ts c) = block (ts ++ t ∷ []) c

abbrev pub set_child : Config → Statement → Statement
set_child c (simple ts) = block ts c
set_child c (block ts d) = block ts c

-- `braces` is the size of `braces_stack`; `blocks` is `config_blocks_content`.
pub record State : Type 0 where
  pub braces : ℕ
  pub top : Config
  pub below : List Config
  pub last : TokenType
  pub blocks : List Config

-- What one token does: go on, return or break with a result, or undefined behaviour.
pub data Step : Type 0 where
  next : State → Step
  done : Bool → State → Step
  fault : Step

-- The curly braces, by the first byte of the token; `none` is the break at an unmatched one.
unfoldable pub track_braces : Bytes → ℕ → Option ℕ
track_braces [] n = some n
track_braces (c ∷ _) n =
    if c == b'{'
    then some (n + 1)
    else if c == b'}'
    then (if n == 0 then none else some (n - 1))
    else some n

abbrev pub begins_statement : TokenType → Bool
begins_statement start = true
begins_statement statement_end = true
begins_statement start_block = true
begins_statement end_block = true
begins_statement _ = false

abbrev pub is_normal : TokenType → Bool
is_normal normal = true
is_normal _ = false

-- after which a block may end
abbrev pub may_end_block : TokenType → Bool
may_end_block statement_end = true
may_end_block end_block = true
may_end_block start_block = true
may_end_block _ = false

-- after which the file may end
abbrev pub may_end_file : TokenType → Bool
may_end_file statement_end = true
may_end_file end_block = true
may_end_file start = true
may_end_file _ = false

abbrev pub with_top : State → TokenType → Option Config → Step
with_top s t none = fault
with_top s t (some c) = next (record s { top = c; last = t })

step_normal : State → Bytes → Step
step_normal s t =
    if is_normal s.last
    then with_top s normal (update_last (push_token t) s.top)
    else if begins_statement s.last
    then with_top s normal (update_last (push_token t) (append s.top (simple [])))
    else done false s

abbrev pub open_block : State → Option Config → Step
open_block s none = fault
open_block s (some c) = next (record s { top = nil; below = c ∷ s.below; last = start_block })

step_start_block : State → Step
step_start_block s =
    if is_normal s.last then open_block s (update_last (set_child nil) s.top) else done false s

-- the block on top is copied to the list, and is the child of its parent's last statement
abbrev pub close_block : State → List Config → Step
close_block s [] = done false s
close_block s (c ∷ cs) = elim (update_last (set_child s.top) c) [
  | none ↦ fault
  | some d ↦
      next (record s { top = d; below = cs; last = end_block; blocks = s.blocks ++ s.top ∷ [] })
]

step_end_block : State → Step
step_end_block s = if may_end_block s.last then close_block s s.below else done false s

abbrev pub is_empty : List Config → Bool
is_empty [] = true
is_empty (_ ∷ _) = false

step_eof : State → Step
step_eof s =
    if may_end_file s.last
    then done (if is_empty s.below then s.braces == 0 else false) s
    else done false s

unfoldable pub step_type : TokenType → State → Bytes → Step
unfolding step_normal step_start_block step_end_block step_eof
step_type error s t = done false s
step_type comment s t = next s
step_type start s t = done false s
step_type normal s t = step_normal s t
step_type statement_end s t =
    if is_normal s.last then next (record s { last = statement_end }) else done false s
step_type start_block s t = step_start_block s
step_type end_block s t = step_end_block s
step_type eof s t = step_eof s

-- one round of the loop, on a token
unfoldable pub step : State → Token → Step
unfolding track_braces
step s t = elim (track_braces t.value s.braces) [
  | none ↦ done false s
  | some n ↦ step_type t.type (record s { braces = n }) t.value
]

-- The configuration that the caller holds: every open block is in its parent.
unfoldable pub unwind : Config → List Config → Config
unwind c [] = c
unwind c (d ∷ ds) = elim (update_last (set_child c) d) [ none ↦ unwind d ds | some e ↦ unwind e ds ]

pub data Outcome : Type 0 where
  returned : Bool → State → Outcome
  undefined : Outcome
  out_of_fuel : Outcome

-- The loop. Each round reads a token; the fuel bounds the rounds.
unfoldable pub loop : ℕ → State → Bytes → Outcome
loop zero s input = out_of_fuel
loop (suc f) s input = elim (step s (parse_token input)) [
  | next s' ↦ loop f s' (parse_token input).rest
  | done b s' ↦ returned b s'
  | fault ↦ undefined
]

-- On a configuration `c` that the caller passes, and the blocks of the earlier calls.
abbrev pub initial : Config → List Config → State
initial c blocks = record { braces = 0; top = c; below = []; last = start; blocks = blocks }

-- `Parse` on a stream: a token takes a byte at least, so one round more than there are bytes is
-- enough.
unfoldable pub parse : Config → List Config → Bytes → Outcome
parse c blocks input = loop (suc (length input)) (initial c blocks) input

-- `Parse` on the file of a name, which is none if it cannot be opened.
unfoldable pub parse_file : Config → List Config → Option Bytes → Outcome
parse_file c blocks none = returned false (initial c blocks)
parse_file c blocks (some input) = parse c blocks input
