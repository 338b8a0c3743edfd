-- ===== src/Port/Blocks.antt =====
-- `port::setConfigBlocks`: the header of every location of the file, with the content of its block.
use mathlib.Core.Option
use cs130capstoneproject.Base.{
  ℕ, zero, suc, Bool, true, false, ◌||◌, Option, none, some, List, [], ◌∷◌, ◌++◌, if◌then◌else◌,
}
use cs130capstoneproject.Base.Bytes.{Bytes, codes, equal}
use cs130capstoneproject.Config.Syntax.{Config, nil}
use cs130capstoneproject.Config.Lexer.{get_token}
use cs130capstoneproject.Config.Parser.{Outcome, returned, undefined, out_of_fuel, parse}

pub record ConfigBlock : Type 0 where
  pub prefix : Bytes
  pub handler_type : Bytes
  pub content : Config

-- The loops `while (token != stop)`: what is left of the file behind that token.
unfoldable pub skip_to : ℕ → Bytes → Bytes → Bytes → Option Bytes
skip_to zero stop token input = none
skip_to (suc f) stop token input = elim (equal token stop) [
  | true ↦ some input
  | false ↦ skip_to f stop (get_token input).0 (get_token input).1
]

unfoldable pub is_listed : Bytes → Bool
is_listed token =
    equal token (codes "EchoHandler")
    || equal token (codes "StatusHandler")
    || equal token (codes "ErrorHandler")
    || equal token (codes "HealthHandler")
    || equal token (codes "ProxyHandler")
    || equal token (codes "CacheHandler")

-- The token, the input that is left, and the blocks after a location.
abbrev pub Located : Type 0
Located = Option (Bytes × Bytes × List ConfigBlock)

abbrev pub skipped : Bytes → List ConfigBlock → Option Bytes → Located
skipped stop blocks none = none
skipped stop blocks (some rest) = some (stop, rest, blocks)

abbrev pub header : Bytes → Bytes → ConfigBlock
header prefix handler_type = record { prefix = prefix; handler_type = handler_type; content = nil }

-- Behind the type of a handler that is not listed: a block that begins here goes to its first
-- semicolon.
abbrev pub static_block : ℕ → ConfigBlock → List ConfigBlock → Bytes → Bytes → Located
static_block f block blocks token input =
    if equal token (codes "{")
    then skipped (codes ";") (blocks ++ block ∷ [])
        (skip_to f (codes ";") (get_token input).0 (get_token input).1)
    else some (token, input, blocks)

abbrev pub typed_block : ℕ → Bytes → List ConfigBlock → Bytes → Bytes → Located
typed_block f prefix blocks token input =
    if is_listed token
    then skipped (codes "}") (blocks ++ header prefix token ∷ [])
        (skip_to f (codes "}") token input)
    else static_block f (header prefix token) blocks (get_token input).0 (get_token input).1

-- The body of the loop: what stands behind the word "location" is a prefix.
abbrev pub read_token : ℕ → Bool → Bytes → Bytes → List ConfigBlock → Located
read_token f true token input blocks =
    typed_block f token blocks (get_token input).0 (get_token input).1
read_token f false token input blocks = some (token, input, blocks)

-- The loop over the tokens. A round takes fuel, and so does one of the loops in it; `none` is too
-- little.
unfoldable pub read_blocks :
    ℕ → Bytes → Bytes → Bytes → List ConfigBlock → Option (List ConfigBlock)
unfolding is_listed
read_blocks zero last token input blocks = none
read_blocks (suc f) last [] input blocks = some blocks
read_blocks (suc f) last (c ∷ t) input blocks =
    elim (read_token f (equal last (codes "location")) (c ∷ t) input blocks) [
      | none ↦ none
      | some (token, rest, blocks') ↦
          read_blocks f token (get_token rest).0 (get_token rest).1 blocks'
    ]

-- config_blocks[i].content = blocks[i], for every i; `none` is an access out of bounds.
unfoldable pub assign_contents : List ConfigBlock → List Config → Option (List ConfigBlock)
assign_contents blocks [] = some blocks
assign_contents [] (c ∷ contents) = none
assign_contents (b ∷ blocks) (c ∷ contents) =
    Option.map (◌∷◌ (record b { content = c })) (assign_contents blocks contents)

-- The configuration that the caller holds after a run, its blocks, an access out of bounds, or a run
-- that does not end with this fuel.
pub data BlocksResult : Type 0 where
  set_blocks : List ConfigBlock → BlocksResult
  overrun endless : BlocksResult

abbrev pub with_contents : Option (List ConfigBlock) → BlocksResult
with_contents none = overrun
with_contents (some blocks) = set_blocks blocks

abbrev pub filled : List Config → Option (List ConfigBlock) → BlocksResult
filled contents none = endless
filled contents (some blocks) = with_contents (assign_contents blocks contents)

abbrev pub after_parse : Option (List ConfigBlock) → Outcome → BlocksResult
after_parse blocks (returned b s) = filled s.blocks blocks
after_parse blocks undefined = overrun
after_parse blocks out_of_fuel = endless

-- On a new port. The result of `Parse` is not looked at. `f` bounds the rounds of each loop over the
-- tokens.
unfoldable pub set_config_blocks : ℕ → Config → Bytes → BlocksResult
set_config_blocks f config input =
    after_parse (read_blocks f [] (get_token input).0 (get_token input).1 [])
      (parse config [] input)
