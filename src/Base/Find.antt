-- ===== src/Base/Find.antt =====
-- Where a byte stands in a text, and what stands before and behind it.
use Prim.Native.Nat.{ℕ, suc}
use mathlib.Core.Path.{◌≡◌, refl}
use mathlib.Core.Bool.{true, false}
use mathlib.Core.Option.{some, none}
use mathlib.Core.List.{[], ◌∷◌, ◌++◌}
use native.Mathlib.Omega.{arith}
use cs130capstoneproject.Base.Tests.{◌==◌}
use cs130capstoneproject.Base.Lists.{length, drop}
use cs130capstoneproject.Base.Predicates.{All}
use cs130capstoneproject.Base.Bytes.{Bytes, find, starts_with}

pub find_byte :
    (c : ℕ) (s r : Bytes)
    → All (λ x. (x == c) ≡ false) s
    → find (c ∷ []) (s ++ c ∷ r) ≡ some (length s)
unfolding find starts_with
find_byte c [] r h = ground arith
find_byte c (x ∷ s) r (h, hs) = ground (arith, find_byte c s r hs)

pub find_byte_none : (c : ℕ) (s : Bytes) → All (λ x. (x == c) ≡ false) s → find (c ∷ []) s ≡ none
unfolding find starts_with
find_byte_none c [] h = ground arith
find_byte_none c (x ∷ s) (h, hs) = ground (arith, find_byte_none c s hs)

pub drop_behind : (s r : Bytes) (c : ℕ) → drop (suc (length s)) (s ++ c ∷ r) ≡ r
drop_behind [] r c = refl
drop_behind (x ∷ s) r c = drop_behind s r c

pub starts_with-append : (p s r : Bytes) → starts_with p s ≡ true → starts_with p (s ++ r) ≡ true
unfolding starts_with
starts_with-append [] s r h = ground arith
starts_with-append (x ∷ p) [] r h = cc
starts_with-append (x ∷ p) (y ∷ s) r h = ground (arith, starts_with-append p s r)
