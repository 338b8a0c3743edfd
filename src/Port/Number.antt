-- ===== src/Port/Number.antt =====
-- `port::checkPortNum`, `isValid` and `isNumeric`, on the text of the file.
use mathlib.Core.Option
use cs130capstoneproject.Base.{
  ℕ, zero, suc, Bool, true, false, not, ◌&&◌, ◌||◌, Option, none, some, List, [], ◌∷◌, ltb, length,
  if◌then◌else◌,
}
use cs130capstoneproject.Base.Bytes.{Bytes, codes, equal, is_digit}
use cs130capstoneproject.RequestParser.Numbers.{value}
use cs130capstoneproject.Config.Lexer.{get_token}

unfoldable pub is_valid : ℕ → Bool
is_valid port_num = not (ltb port_num 1 || ltb 65535 port_num)

unfoldable pub is_numeric : Bytes → Bool
is_numeric [] = true
is_numeric (c ∷ s) = is_digit c && is_numeric s

-- std::stoi on a text of digits: it throws where the number does not fit an `int`
abbrev pub stoi : Bytes → Option ℕ
stoi s = if ltb (value 0 s) 2147483648 then some (value 0 s) else none

-- Whether the loop pushes the token, by the token before it.
abbrev pub push_if : Bool → Bytes → Option (List Bytes) → Option (List Bytes)
push_if true token queue = Option.map (◌∷◌ token) queue
push_if false token queue = queue

-- The loop over the tokens, to the first empty one: those that are behind the token "port". A round
-- takes fuel.
unfoldable pub port_queue : ℕ → Bytes → Bytes → Bytes → Option (List Bytes)
port_queue zero last token input = none
port_queue (suc f) last [] input = some []
port_queue (suc f) last (c ∷ t) input =
    let more = port_queue f (c ∷ t) (get_token input).0 (get_token input).1 in
    push_if (equal last (codes "port")) (c ∷ t) more

-- The port that is set, a false result, the exception of `stoi`, or too little fuel.
pub data PortCheck : Type 0 where
  set_port : ℕ → PortCheck
  refused out_of_range out_of_fuel : PortCheck

abbrev pub check_number : Option ℕ → PortCheck
check_number none = out_of_range
check_number (some n) = if is_valid n then set_port n else refused

abbrev pub check_queue : Option (List Bytes) → PortCheck
check_queue none = out_of_fuel
check_queue (some []) = refused
check_queue (some (first ∷ queue)) = if is_numeric first then check_number (stoi first) else refused

-- Every token but an empty one takes a byte.
unfoldable pub check_port_num : Bytes → PortCheck
check_port_num input =
    check_queue (port_queue (suc (length input)) [] (get_token input).0 (get_token input).1)
