-- ===== src/Proxy/Values.antt =====
-- What `parse_cache_hdrs` makes of the directives that a client sends.
use cs130capstoneproject.Base.{
  ℕ, zero, suc, ◌<◌, ◌≡◌, refl, sym, ap, ◌∙◌, true, false, Option, none, some, List, [], ◌∷◌, ◌++◌,
  ◌==◌, arith, ◌⊎◌, inl, inr, Bool-cases, get_last?-concat, within, if◌then◌else◌, length,
  length-append, take_self, All, All-append, append_assoc,
}
use cs130capstoneproject.Base.Bytes.{Bytes, codes, is_space, is_digit, find, starts_with}
use cs130capstoneproject.Base.Find.{find_byte, find_byte_none, drop_behind}
use cs130capstoneproject.Base.Map.{Map, lookup, assign}
use cs130capstoneproject.Base.Int.{ℤ, negsuc}
use cs130capstoneproject.RequestParser.Numbers.{skip_space}
use cs130capstoneproject.RequestParser.HeaderMap.{or_empty}
use cs130capstoneproject.Proxy.Directives.{
  stoi, stoi_sign, stoi_digits, value_behind, add_value, has_value, add_directive, bind_map,
  read_directives, parse_cache_hdrs,
}
use cs130capstoneproject.Proxy.Printed.{
  Directive, print, print_all, IsName, IsDirective, put, put_all, has_value-append, IsName-no_comma,
  IsName-no_equals, IsName-no_space, add_directive-print, print-no_comma, print-no_space, no_comma,
  no_space,
}

-- A directive that takes a value.
abbrev pub IsTimed : Bytes → Type 0
IsTimed name = (name ≡ codes "max-age") ⊎ (name ≡ codes "max-stale") ⊎ (name ≡ codes "min-fresh")

IsTimed-IsName : (name : Bytes) → IsTimed name → IsName name
unfolding is_space
IsTimed-IsName name (inl e) = rw e (grind arith)
IsTimed-IsName name (inr (inl e)) = rw e (grind arith)
IsTimed-IsName name (inr (inr e)) = rw e (grind arith)

IsTimed-has_value : (name : Bytes) → IsTimed name → has_value name ≡ true
unfolding has_value find starts_with
IsTimed-has_value name (inl e) = rw e refl
IsTimed-has_value name (inr (inl e)) = rw e refl
IsTimed-has_value name (inr (inr e)) = rw e refl

-- A byte with which no number begins.
abbrev pub IsNoNumber : ℕ → Type 0
IsNoNumber c = (within b'0' b'9' c ≡ false) × ((c == b'-') ≡ false) × ((c == b'+') ≡ false)

stoi-IsNoNumber : (c : ℕ) (s : Bytes) → is_space c ≡ false → IsNoNumber c → stoi (c ∷ s) ≡ none
unfolding stoi stoi_sign stoi_digits skip_space is_digit
stoi-IsNoNumber c s space (digit, minus, plus) = rw (space, minus, plus, digit) refl

-- What is read of a value by its last byte.
abbrev pub last_value : Bytes → ℕ → Option (Map ℤ)
last_value name last = if within b'0' b'9' last then none else some ((name, negsuc 0) ∷ [])

-- The last byte decides whether the value is read as a number.
value-last_byte :
    (name s : Bytes) (first last : ℕ)
    → is_space first ≡ false
    → IsNoNumber first
    → add_value name (value_behind (first ∷ (s ++ last ∷ []))) [] ≡ last_value name last
unfolding is_digit assign
value-last_byte name s first last space other = elim (Bool-cases (within b'0' b'9' last)) [
  | inl digit ↦
      rw
        (
          get_last?-concat (first ∷ s) last,
          digit,
          stoi-IsNoNumber first (s ++ last ∷ []) space other,
        )
        refl
  | inr no_digit ↦ rw (get_last?-concat (first ∷ s) last, no_digit) refl
]

-- `boost::trim`: it takes white space from both ends.
module _ (trim : Bytes → Bytes) (trim_front : (s : Bytes) → trim (b' ' ∷ s) ≡ trim s)
    (trim_plain : (s : Bytes) → All (λ x. is_space x ≡ false) s → trim s ≡ s) where
  add_directive-trim :
      (d : Directive) (m : Map ℤ) (lead : Bytes)
      → ((s : Bytes) → trim (lead ++ s) ≡ trim s)
      → IsDirective d
      → add_directive (trim (lead ++ print d)) m ≡ some (put d m)
  add_directive-trim d m lead t h =
      rw (t (print d), trim_plain (print d) (print-no_space d h)) (add_directive-print d m h)

  read_directives-last :
      (f : ℕ) (s : Bytes) (m : Map ℤ)
      → All (λ x. (x == b',') ≡ false) s
      → read_directives trim (suc f) s m ≡ add_directive (trim s) m
  unfolding read_directives add_directive
  read_directives-last f s m n = rw (find_byte_none b',' s n, read_directives) refl

  read_directives-next :
      (f : ℕ) (s r : Bytes) (m : Map ℤ)
      → All (λ x. (x == b',') ≡ false) s
      → read_directives trim (suc f) (s ++ b',' ∷ r) m
        ≡ bind_map (add_directive (trim s) m) (read_directives trim f r)
  unfolding read_directives add_directive
  read_directives-next f s r m n =
      rw (find_byte b',' s r n, read_directives, take_self s (b',' ∷ r), drop_behind s r b',') refl

  read_directives-print :
      (f : ℕ) (lead : Bytes) (d : Directive) (ds : List Directive) (m : Map ℤ)
      → ((s : Bytes) → trim (lead ++ s) ≡ trim s)
      → All (λ x. (x == b',') ≡ false) lead
      → All IsDirective (d ∷ ds)
      → length (lead ++ print_all d ds) < f
      → read_directives trim f (lead ++ print_all d ds) m ≡ some (put_all (d ∷ ds) m)
  read_directives-print zero lead d ds m t n h l = absurd (omega arith)
  read_directives-print (suc f) lead d [] m t n (h, _) l =
      read_directives-last f (lead ++ print d) m
        (All-append (λ x. (x == b',') ≡ false) lead (print d) n (print-no_comma d h))
      ∙ add_directive-trim d m lead t h
  read_directives-print (suc f) lead d (e ∷ ds) m t n (h, hs) l =
      let first = lead ++ print d in
      let rest = b' ' ∷ print_all e ds in
      let clean = All-append (λ x. (x == b',') ≡ false) lead (print d) n (print-no_comma d h) in
      ap (λ s. read_directives trim (suc f) s m) (sym (append_assoc lead (print d) (b',' ∷ rest)))
      ∙ read_directives-next f first rest m clean
      ∙ ap (λ o. bind_map o (read_directives trim f rest)) (add_directive-trim d m lead t h)
      ∙ read_directives-print f (b' ' ∷ []) e ds (put d m) trim_front (refl, tt) hs
          (omega (
            arith,
            length-append lead (print d ++ b',' ∷ rest),
            length-append (print d) (b',' ∷ rest),
          ))

  -- If trim takes a space in front of a text off, and leaves a text without white space as it is, a
  -- Cache-Control header that is a list of directives without white space, with a comma and a space
  -- between two, is read as what it says: a name with a number below 2 ^ 31, where the name has one of
  -- the three that take a value in it, is put in the map with that number, and any other name with 1.
  pub parse_cache_hdrs-print :
      (hdrs : Map Bytes) (d : Directive) (ds : List Directive)
      → or_empty (lookup (codes "Cache-Control") hdrs) ≡ print_all d ds
      → All IsDirective (d ∷ ds)
      → parse_cache_hdrs trim hdrs ≡ some (put_all (d ∷ ds) [])
  unfolding parse_cache_hdrs
  parse_cache_hdrs-print hdrs d ds e h = rw e (
      read_directives-print (suc (length (print_all d ds))) [] d ds [] (λ s. refl) tt h
        (omega arith))

  -- A header of one directive that takes a value.
  read_directives-value :
      (f : ℕ) (name v : Bytes) (m : Map ℤ)
      → IsName name
      → has_value name ≡ true
      → All (λ x. ((x == b',') ≡ false) × (is_space x ≡ false)) v
      → read_directives trim (suc f) (name ++ b'=' ∷ v) m ≡ add_value name (value_behind v) m
  unfolding add_directive
  read_directives-value f name v m h k plain =
      let s = name ++ b'=' ∷ v in
      rw
        (
          read_directives-last f s m (
              All-append (λ x. (x == b',') ≡ false) name (b'=' ∷ v) (IsName-no_comma name h)
                (refl, no_comma v plain)),
          trim_plain s (
              All-append (λ x. is_space x ≡ false) name (b'=' ∷ v) (IsName-no_space name h)
                (unfold is_space in refl, no_space v plain)),
          has_value-append name (b'=' ∷ v) k,
          find_byte b'=' name v (IsName-no_equals name h),
          take_self name (b'=' ∷ v),
          drop_behind name v b'=',
        )
        refl

  -- If trim takes a space in front of a text off, and leaves a text without white space as it is: of a
  -- Cache-Control header of one directive, max-age, max-stale or min-fresh, with a value of two bytes
  -- or more without a comma and white space, whose first byte is no digit and no sign, only the last
  -- byte counts. If that is a digit, `parse_cache_hdrs` throws, and the loop does so whatever its fuel;
  -- else the value is read as -1.
  pub parse_cache_hdrs-last_byte :
      (hdrs : Map Bytes) (name s : Bytes) (first last : ℕ)
      → or_empty (lookup (codes "Cache-Control") hdrs) ≡ name ++ b'=' ∷ (first ∷ (s ++ last ∷ []))
      → IsTimed name
      → All (λ x. ((x == b',') ≡ false) × (is_space x ≡ false)) (first ∷ (s ++ last ∷ []))
      → IsNoNumber first
      → (parse_cache_hdrs trim hdrs ≡ last_value name last)
        × ((f : ℕ)
            → read_directives trim (suc f) (or_empty (lookup (codes "Cache-Control") hdrs)) []
              ≡ last_value name last)
  unfolding parse_cache_hdrs
  parse_cache_hdrs-last_byte hdrs name s first last e k plain other =
      let v = first ∷ (s ++ last ∷ []) in
      let reads : (f : ℕ)
          → read_directives trim (suc f) (or_empty (lookup (codes "Cache-Control") hdrs)) []
            ≡ last_value name last =
        λ f. rw e (
          read_directives-value f name v [] (IsTimed-IsName name k) (IsTimed-has_value name k) plain
          ∙ value-last_byte name s first last ((plain.0).1) other) in
      (reads (length (or_empty (lookup (codes "Cache-Control") hdrs))), reads)
