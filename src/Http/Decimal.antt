-- ===== src/Http/Decimal.antt =====
-- `std::to_string` of a number that is not negative.
use mathlib.Core.List.{concat-ne-nil}
use cs130capstoneproject.Base.{
  inl, inr, Bool-cases, ℕ, zero, suc, ◌+◌, ◌-◌, ◌*◌, ◌/◌, ◌%◌, ◌<◌, ◌≡◌, ◌≢◌, refl, ◌∙◌, ap, true,
  some, [], ◌∷◌, ◌++◌, arith, ltb, All-concat, if◌then◌else◌,
}
use cs130capstoneproject.Base.Bytes.{Bytes, is_digit}
use cs130capstoneproject.RequestParser.Numbers.{value, AreDigits, u64_mod, stoull, stoull_of_digits}

-- The digits of a number below 10 ^ fuel.
unfoldable pub decimal : ℕ → ℕ → Bytes
decimal zero n = []
decimal (suc f) n =
    let more = decimal f (n / 10) ++ (b'0' + n % 10) ∷ [] in
    if ltb n 10 then (b'0' + n) ∷ [] else more

-- The fuel is enough, since a number has fewer digits than its successor says.
unfoldable pub to_string : ℕ → Bytes
unfolding decimal
to_string n = decimal (suc n) n

pub value-concat : (n c : ℕ) (s : Bytes) → value n (s ++ c ∷ []) ≡ value n s * 10 + (c - b'0')
value-concat n c [] = refl
value-concat n c (x ∷ s) = value-concat (n * 10 + (x - b'0')) c s

decimal-value : (f n : ℕ) → n < f → value 0 (decimal f n) ≡ n
unfolding decimal
decimal-value zero n h = absurd (omega arith)
decimal-value (suc f) n h =
    ground (arith, decimal-value f (n / 10), value-concat 0 (b'0' + n % 10) (decimal f (n / 10)))

pub to_string-value : (n : ℕ) → value 0 (to_string n) ≡ n
unfolding to_string
to_string-value n = decimal-value (suc n) n (omega arith)

last_digit : (n : ℕ) → is_digit (b'0' + n % 10) ≡ true
unfolding is_digit
last_digit n = ground arith

decimal-AreDigits : (f n : ℕ) → AreDigits (decimal f n)
unfolding decimal is_digit
decimal-AreDigits zero n = tt
decimal-AreDigits (suc f) n = elim (Bool-cases (ltb n 10)) [
  | inl small ↦ rw small (ground arith, tt)
  | inr large ↦ rw large (
      All-concat (λ c. is_digit c ≡ true) (decimal f (n / 10)) (decimal-AreDigits f (n / 10))
        (last_digit n))
]

pub to_string-AreDigits : (n : ℕ) → AreDigits (to_string n)
unfolding to_string
to_string-AreDigits n = decimal-AreDigits (suc n) n

decimal-ne-nil : (f n : ℕ) → n < f → decimal f n ≢ []
unfolding decimal
decimal-ne-nil zero n h e = absurd (omega arith)
decimal-ne-nil (suc f) n h e = ground (arith, concat-ne-nil (b'0' + n % 10) (decimal f (n / 10)))

pub to_string-ne-nil : (n : ℕ) → to_string n ≢ []
unfolding to_string
to_string-ne-nil n = decimal-ne-nil (suc n) n (omega arith)

-- A printed number is read back, if it fits the 64 bits of what reads it.
pub stoull-to_string : (n : ℕ) → n < u64_mod → stoull (to_string n) ≡ some n
unfolding to_string
stoull-to_string n h =
    let v = decimal-value (suc n) n (omega arith) in
    stoull_of_digits (decimal (suc n) n) (decimal-ne-nil (suc n) n (omega arith))
      (decimal-AreDigits (suc n) n) (rw v h)
    ∙ ap some v
