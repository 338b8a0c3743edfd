-- ===== src/Base/Regex.antt =====
-- Regular expressions over bytes, as the standard library matches them, by derivatives.
use Prim.Native.Nat.{ℕ}
use mathlib.Core.Bool.{Bool, true, false, ◌&&◌, ◌||◌}
use mathlib.Core.List.{[], ◌∷◌}
use cs130capstoneproject.Base.Tests.{◌==◌, if◌then◌else◌}
use cs130capstoneproject.Base.Bytes.{Bytes}

pub data Regex : Type 0 where
  fail empty : Regex
  one : (ℕ → Bool) → Regex
  seq alt : Regex → Regex → Regex
  star : Regex → Regex

unfoldable pub nullable : Regex → Bool
nullable fail = false
nullable empty = true
nullable (one p) = false
nullable (seq r q) = nullable r && nullable q
nullable (alt r q) = nullable r || nullable q
nullable (star r) = true

-- What must match behind the byte.
unfoldable pub derive : ℕ → Regex → Regex
unfolding nullable
derive c fail = fail
derive c empty = fail
derive c (one p) = if p c then empty else fail
derive c (seq r q) =
    let later = seq (derive c r) q in
    let either = alt (seq (derive c r) q) (derive c q) in if nullable r then either else later
derive c (alt r q) = alt (derive c r) (derive c q)
derive c (star r) = seq (derive c r) (star r)

-- std::regex_match
unfoldable pub regex_match : Regex → Bytes → Bool
unfolding derive nullable
regex_match r [] = nullable r
regex_match r (c ∷ s) = regex_match (derive c r) s

-- Whether the text begins with a match.
unfoldable pub match_prefix : Regex → Bytes → Bool
unfolding derive nullable
match_prefix r [] = nullable r
match_prefix r (c ∷ s) = nullable r || match_prefix (derive c r) s

-- std::regex_search
unfoldable pub regex_search : Regex → Bytes → Bool
unfolding match_prefix
regex_search r [] = nullable r
regex_search r (c ∷ s) = match_prefix r (c ∷ s) || regex_search r s

-- A text byte by byte, and one or more.
unfoldable pub literal : Bytes → Regex
literal [] = empty
literal (c ∷ s) = seq (one (λ x. x == c)) (literal s)

abbrev pub plus : Regex → Regex
plus r = seq r (star r)
