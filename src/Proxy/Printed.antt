-- ===== src/Proxy/Printed.antt =====
-- Directives as a client sends them, and what `parse_cache_hdrs` makes of one of them.
use cs130capstoneproject.Base.{
  ℕ, ◌<◌, ◌≡◌, ◌≢◌, refl, true, false, some, List, [], ◌∷◌, ◌++◌, ◌==◌, arith, take_self, get_last?,
  All, All-append,
}
use cs130capstoneproject.Base.Bytes.{Bytes, codes, find, starts_with, is_digit, is_space}
use cs130capstoneproject.Base.Find.{find_byte, drop_behind, starts_with-append}
use cs130capstoneproject.Base.Map.{Map, assign}
use cs130capstoneproject.Base.Int.{ℤ, pos}
use cs130capstoneproject.RequestParser.Numbers.{
  value, AreDigits, skip_space, digits_value-value, digit_no_sign,
}
use cs130capstoneproject.Http.Decimal.{
  to_string, to_string-value, to_string-AreDigits, to_string-ne-nil,
}
use cs130capstoneproject.Proxy.Directives.{
  stoi, stoi_sign, stoi_digits, found, has_value, is_num, value_behind, add_directive,
}

-- A directive alone, or one with a number of seconds.
pub data Directive : Type 0 where
  flag : Bytes → Directive
  timed : Bytes → ℕ → Directive

abbrev pub print : Directive → Bytes
print (flag name) = name
print (timed name n) = name ++ b'=' ∷ to_string n

-- With a comma and a space between two.
abbrev pub print_all : Directive → List Directive → Bytes
print_all d [] = print d
print_all d (e ∷ ds) = print d ++ b',' ∷ b' ' ∷ print_all e ds

abbrev pub IsName : Bytes → Type 0
IsName name = All (λ c. ((c == b',') ≡ false) × ((c == b'=') ≡ false) × (is_space c ≡ false)) name

abbrev pub IsDirective : Directive → Type 0
IsDirective (flag name) = IsName name × (has_value name ≡ false)
IsDirective (timed name n) = IsName name × (has_value name ≡ true) × (n < 2147483648)

abbrev pub put : Directive → Map ℤ → Map ℤ
put (flag name) m = assign name (pos 1) m
put (timed name n) m = assign name (pos n) m

abbrev pub put_all : List Directive → Map ℤ → Map ℤ
put_all [] m = m
put_all (d ∷ ds) m = put_all ds (put d m)

pub found-append : (p s r : Bytes) → found (find p s) ≡ true → found (find p (s ++ r)) ≡ true
unfolding find starts_with
found-append [] [] [] h = refl
found-append [] [] (y ∷ r) h = refl
found-append (x ∷ p) [] r h = ground arith
found-append p (x ∷ s) r h = ground (arith, found-append p s r, starts_with-append p (x ∷ s) r)

pub has_value-append : (s r : Bytes) → has_value s ≡ true → has_value (s ++ r) ≡ true
unfolding has_value
has_value-append s r h = ground (
  arith,
  found-append (codes "max-age") s r,
  found-append (codes "max-stale") s r,
  found-append (codes "min-fresh") s r,
)

pub stoi_of_digits :
    (s : Bytes) → s ≢ [] → AreDigits s → value 0 s < 2147483648 → stoi s ≡ some (pos (value 0 s))
unfolding stoi stoi_sign stoi_digits skip_space
stoi_of_digits [] ne h small = absurd (ne refl)
stoi_of_digits (c ∷ s) ne (h, hs) small =
    let (space, minus, plus) = digit_no_sign c h in
    ground (arith, digits_value-value 0 (c ∷ s) (h, hs))

pub AreDigits-is_num : (s : Bytes) → AreDigits s → is_num (get_last? s) ≡ true
AreDigits-is_num [] h = refl
AreDigits-is_num (c ∷ []) (h, _) = h
AreDigits-is_num (c ∷ d ∷ s) (_, h) = AreDigits-is_num (d ∷ s) h

pub value_behind-digits : (n : ℕ) → n < 2147483648 → value_behind (to_string n) ≡ some (pos n)
value_behind-digits n h =
    rw
      (
        AreDigits-is_num (to_string n) (to_string-AreDigits n),
        stoi_of_digits (to_string n) (to_string-ne-nil n) (to_string-AreDigits n)
            (rw (to_string-value n) h),
        to_string-value n,
      )
      refl

pub AreDigits-ne :
    (c : ℕ) (s : Bytes) → is_digit c ≡ false → AreDigits s → All (λ x. (x == c) ≡ false) s
AreDigits-ne c [] d h = tt
AreDigits-ne c (x ∷ s) d (h, hs) = (ground arith, AreDigits-ne c s d hs)

pub IsName-no_comma : (s : Bytes) → IsName s → All (λ x. (x == b',') ≡ false) s
IsName-no_comma [] h = tt
IsName-no_comma (x ∷ s) (h, hs) = (h.0, IsName-no_comma s hs)

pub IsName-no_equals : (s : Bytes) → IsName s → All (λ x. (x == b'=') ≡ false) s
IsName-no_equals [] h = tt
IsName-no_equals (x ∷ s) (h, hs) = (h.1, IsName-no_equals s hs)

pub IsName-no_space : (s : Bytes) → IsName s → All (λ x. is_space x ≡ false) s
IsName-no_space [] h = tt
IsName-no_space (x ∷ s) (h, hs) = (h.2, IsName-no_space s hs)

pub add_directive-print :
    (d : Directive) (m : Map ℤ) → IsDirective d → add_directive (print d) m ≡ some (put d m)
unfolding add_directive
add_directive-print (flag name) m (h, k) = rw k refl
add_directive-print (timed name n) m (h, k, small) =
    rw
      (
        has_value-append name (b'=' ∷ to_string n) k,
        find_byte b'=' name (to_string n) (IsName-no_equals name h),
        take_self name (b'=' ∷ to_string n),
        drop_behind name (to_string n) b'=',
        value_behind-digits n small,
      )
      refl

pub print-no_comma : (d : Directive) → IsDirective d → All (λ x. (x == b',') ≡ false) (print d)
unfolding is_digit
print-no_comma (flag name) (h, k) = IsName-no_comma name h
print-no_comma (timed name n) (h, k, small) =
    All-append (λ x. (x == b',') ≡ false) name (b'=' ∷ to_string n) (IsName-no_comma name h)
      (refl, AreDigits-ne b',' (to_string n) refl (to_string-AreDigits n))

pub AreDigits-no_space : (s : Bytes) → AreDigits s → All (λ x. is_space x ≡ false) s
AreDigits-no_space [] h = tt
AreDigits-no_space (c ∷ s) (h, hs) = ((digit_no_sign c h).0, AreDigits-no_space s hs)

pub print-no_space : (d : Directive) → IsDirective d → All (λ x. is_space x ≡ false) (print d)
unfolding is_space
print-no_space (flag name) (h, k) = IsName-no_space name h
print-no_space (timed name n) (h, k, small) =
    All-append (λ x. is_space x ≡ false) name (b'=' ∷ to_string n) (IsName-no_space name h)
      (refl, AreDigits-no_space (to_string n) (to_string-AreDigits n))

abbrev pub IsValue : Bytes → Type 0
IsValue v = All (λ x. ((x == b',') ≡ false) × (is_space x ≡ false)) v

pub no_comma : (v : Bytes) → IsValue v → All (λ x. (x == b',') ≡ false) v
no_comma [] h = tt
no_comma (x ∷ v) (h, hs) = (h.0, no_comma v hs)

pub no_space : (v : Bytes) → IsValue v → All (λ x. is_space x ≡ false) v
no_space [] h = tt
no_space (x ∷ v) (h, hs) = (h.1, no_space v hs)
