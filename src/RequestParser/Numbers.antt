-- ===== src/RequestParser/Numbers.antt =====
-- What the parser uses of the standard library to read numbers: `std::stoull` in base ten, and
-- the extraction of a hexadecimal `int` from a text of two bytes.
use cs130capstoneproject.Base.{
  ◌≡◌, ◌≢◌, refl, All, ℕ, ◌+◌, ◌-◌, ◌*◌, ◌%◌, ◌^◌, ◌<◌, arith, ◌||◌, Bool, true, false, Option,
  none, some, [], ◌∷◌, ◌==◌, ltb, within, if◌then◌else◌,
}
use cs130capstoneproject.Base.Bytes.{Bytes, is_space, is_digit}

-- unsigned long long
abbrev pub u64_mod : ℕ
u64_mod = 2 ^ 64

unfoldable pub digits_value : ℕ → Bytes → ℕ
digits_value n [] = n
digits_value n (c ∷ s) =
    let longer = digits_value (n * 10 + (c - b'0')) s in if is_digit c then longer else n

unfoldable pub skip_space : Bytes → Bytes
skip_space [] = []
skip_space (c ∷ s) = let rest = skip_space s in if is_space c then rest else c ∷ s

-- The digits behind the sign: none of them is `invalid_argument`, too many `out_of_range`.
-- A minus sign negates modulo 2 ^ 64, as `strtoull` does.
pub stoull_digits : Bool → Bytes → Option ℕ
unfolding is_digit digits_value
stoull_digits negative [] = none
stoull_digits negative (c ∷ s) =
    let n = digits_value 0 (c ∷ s) in
    if is_digit c
    then (if ltb n u64_mod then some (if negative then (u64_mod - n) % u64_mod else n) else none)
    else none

pub stoull_sign : Bytes → Option ℕ
unfolding stoull_digits
stoull_sign [] = none
stoull_sign (c ∷ s) =
    if c == b'-'
    then stoull_digits true s
    else if c == b'+'
    then stoull_digits false s
    else stoull_digits false (c ∷ s)

-- `none` is an exception.
unfoldable pub stoull : Bytes → Option ℕ
unfolding stoull_sign skip_space is_space
stoull s = stoull_sign (skip_space s)

abbrev pub FitsWord : Option ℕ → Type 0
FitsWord none = Unit
FitsWord (some n) = n < u64_mod

stoull_digits-FitsWord : (negative : Bool) (s : Bytes) → FitsWord (stoull_digits negative s)
unfolding stoull_digits
stoull_digits-FitsWord negative [] = tt
stoull_digits-FitsWord negative (c ∷ s) = ground arith

stoull_sign-FitsWord : (s : Bytes) → FitsWord (stoull_sign s)
unfolding stoull_sign
stoull_sign-FitsWord [] = tt
stoull_sign-FitsWord (c ∷ s) = ground (
  arith,
  stoull_digits-FitsWord true s,
  stoull_digits-FitsWord false s,
  stoull_digits-FitsWord false (c ∷ s),
)

pub stoull-FitsWord : (s : Bytes) → FitsWord (stoull s)
unfolding stoull
stoull-FitsWord s = stoull_sign-FitsWord (skip_space s)

-- The value of a text of digits.
abbrev pub value : ℕ → Bytes → ℕ
value n [] = n
value n (c ∷ s) = value (n * 10 + (c - b'0')) s

abbrev pub AreDigits : Bytes → Type 0
AreDigits s = All (λ c. is_digit c ≡ true) s

pub digits_value-value : (n : ℕ) (s : Bytes) → AreDigits s → digits_value n s ≡ value n s
unfolding digits_value
digits_value-value n [] h = refl
digits_value-value n (c ∷ s) (h, hs) = rw h (digits_value-value (n * 10 + (c - b'0')) s hs)

pub digit_no_sign :
    (c : ℕ)
    → is_digit c ≡ true
    → (is_space c ≡ false) × ((c == b'-') ≡ false) × ((c == b'+') ≡ false)
unfolding is_digit is_space
digit_no_sign c h = (ground arith, ground arith, ground arith)

stoull_digits_lem :
    (s : Bytes)
    → s ≢ []
    → AreDigits s
    → value 0 s < u64_mod
    → stoull_digits false s ≡ some (value 0 s)
unfolding stoull_digits
stoull_digits_lem [] ne h small = absurd (ne refl)
stoull_digits_lem (c ∷ s) ne (h, hs) small = ground (arith, digits_value-value 0 (c ∷ s) (h, hs))

-- A text of digits is read as its value, if that fits.
pub stoull_of_digits :
    (s : Bytes) → s ≢ [] → AreDigits s → value 0 s < u64_mod → stoull s ≡ some (value 0 s)
unfolding stoull stoull_sign skip_space
stoull_of_digits [] ne h small = absurd (ne refl)
stoull_of_digits (c ∷ s) ne (h, hs) small =
    let (space, minus, plus) = digit_no_sign c h in
    ground (arith, stoull_digits_lem (c ∷ s) ne (h, hs) small)

unfoldable pub hex_digit : ℕ → Option ℕ
hex_digit c =
    if within b'0' b'9' c
    then some (c - b'0')
    else if within b'a' b'f' c
    then some (c - b'a' + 10)
    else if within b'A' b'F' c
    then some (c - b'A' + 10)
    else none

abbrev negate_char : Option ℕ → Option ℕ
negate_char none = none
negate_char (some v) = some ((256 - v) % 256)

-- Two hexadecimal digits; one, before another byte; "0x" alone fails.
abbrev hex_pair : ℕ → ℕ → Option ℕ → Option ℕ → Option ℕ
hex_pair a b none y = none
hex_pair a b (some x) (some y) = some (x * 16 + y)
hex_pair a b (some x) none =
    if a == b'0' then (if b == b'x' || b == b'X' then none else some x) else some x

-- `istringstream is(two bytes); is >> std::hex >> value`, as a `char`; `none` when it fails.
unfoldable pub read_hex : ℕ → ℕ → Option ℕ
unfolding hex_digit is_space
read_hex a b =
    if is_space a || a == b'+'
    then hex_digit b
    else if a == b'-'
    then negate_char (hex_digit b)
    else hex_pair a b (hex_digit a) (hex_digit b)
