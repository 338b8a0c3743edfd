-- ===== src/Session/Buffer.antt =====
-- The array `data_` of a session, into which the socket reads: the text that `handle_read` finds in it.
use cs130capstoneproject.Base.{
  ℕ, zero, suc, ◌≤◌, ◌<◌, ◌≡◌, refl, ap, ◌↔◌, Option, none, some, [], ◌∷◌, ◌++◌, arith, length,
  drop, All, All-append,
}
use cs130capstoneproject.Base.Bytes.{Bytes}

abbrev pub max_length : ℕ
max_length = 1024

abbrev pub nulls : ℕ → Bytes
nulls zero = []
nulls (suc n) = 0 ∷ nulls n

-- memset(data_, '\0', max_length)
abbrev pub cleared : Bytes
cleared = nulls max_length

-- What the socket reads stands at the front, over what was there.
unfoldable pub overwrite : Bytes → Bytes → Bytes
overwrite received array = received ++ drop (length received) array

-- `Option.map` on the text before a byte
abbrev pub with_byte : ℕ → Option Bytes → Option Bytes
with_byte c none = none
with_byte c (some s) = some (c ∷ s)

-- std::string(data_): the bytes before the first null; without a null the read leaves the array.
unfoldable pub c_string : Bytes → Option Bytes
c_string [] = none
c_string (zero ∷ array) = some []
c_string (suc c ∷ array) = with_byte (suc c) (c_string array)

-- A text without a null.
abbrev pub IsText : Bytes → Type 0
IsText = All (λ c. 0 < c)

pub length-nulls : (n : ℕ) → length (nulls n) ≡ n
length-nulls zero = refl
length-nulls (suc n) = ap suc (length-nulls n)

c_string-nulls :
    (s : Bytes) (n : ℕ)
    → IsText s
    → length s < n
    → c_string (s ++ drop (length s) (nulls n)) ≡ some s
unfolding c_string
c_string-nulls s zero h short = absurd (omega arith)
c_string-nulls [] (suc n) h short = refl
c_string-nulls (zero ∷ s) (suc n) (h, hs) short = absurd (omega arith)
c_string-nulls (suc c ∷ s) (suc n) (h, hs) short =
    ap (with_byte (suc c)) (c_string-nulls s n hs (omega arith))

-- A text of fewer than 1024 bytes, without a null, that is read into a cleared array is read as it is.
pub c_string-overwrite :
    (s : Bytes) → IsText s → length s < max_length → c_string (overwrite s cleared) ≡ some s
unfolding overwrite
c_string-overwrite s h short = c_string-nulls s max_length h short

-- The read leaves the array just where there is no null in it.
pub c_string-none_iff : (array : Bytes) → (c_string array ≡ none) ↔ IsText array
unfolding c_string
c_string-none_iff [] = ground arith
c_string-none_iff (zero ∷ array) = ground arith
c_string-none_iff (suc c ∷ array) = ground (arith, c_string-none_iff array)

pub length-overwrite :
    (s array : Bytes) → length s ≤ length array → length (overwrite s array) ≡ length array
unfolding overwrite
length-overwrite [] array h = refl
length-overwrite (c ∷ s) [] h = absurd (omega arith)
length-overwrite (c ∷ s) (d ∷ array) h = ap suc (length-overwrite s array (omega arith))

-- A text without a null that fills the array.
pub c_string-overrun :
    (s array : Bytes) → IsText s → length s ≡ length array → c_string (overwrite s array) ≡ none
unfolding overwrite
c_string-overrun s array h full =
    (c_string-none_iff (s ++ drop (length s) array)).1
      (All-append (λ c. 0 < c) s (drop (length s) array) h (rw (drop-full s array full) tt))
  where
    drop-full : (s t : Bytes) → length s ≡ length t → drop (length s) t ≡ []
    drop-full [] [] e = refl
    drop-full [] (d ∷ t) e = absurd (omega arith)
    drop-full (c ∷ s) [] e = absurd (omega arith)
    drop-full (c ∷ s) (d ∷ t) e = drop-full s t (omega arith)
