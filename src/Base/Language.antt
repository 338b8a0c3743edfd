-- ===== src/Base/Language.antt =====
-- The texts that a regular expression describes, and that the matching by derivatives finds just them.
use Prim.Native.Nat.{ℕ}
use mathlib.Core.Path.{◌≡◌, refl, sym, ap, subst}
use mathlib.Core.Logic.{◌↔◌, ◌⊎◌, inl, inr}
use mathlib.Core.Bool.{true}
use mathlib.Core.List.{head-eq_of_cons-eq, tail-eq_of_cons-eq, [], ◌∷◌, ◌++◌}
use native.Mathlib.Omega.{arith}
use cs130capstoneproject.Base.Tests.{Bool-cases}
use cs130capstoneproject.Base.Bytes.{Bytes}
use cs130capstoneproject.Base.Regex.{
  Regex, fail, empty, one, seq, alt, star, nullable, derive, regex_match, match_prefix,
  regex_search,
}

-- Any number of texts, none of them empty, one behind the other.
pub data Repeated {ℓ} (P : Bytes → Type ℓ) : Bytes → Type ℓ where
  none_left : {s : Bytes} → s ≡ [] → Repeated P s
  more :
      {s : Bytes} (c : ℕ) (t u : Bytes) → s ≡ c ∷ t ++ u → P (c ∷ t) → Repeated P u → Repeated P s

-- The language of a regular expression.
abbrev pub Matches : Regex → Bytes → Type 0
Matches fail s = ⊥
Matches empty s = s ≡ []
Matches (one p) s = (c : ℕ) × (s ≡ c ∷ []) × (p c ≡ true)
Matches (seq r q) s = (t : Bytes) × (u : Bytes) × (s ≡ t ++ u) × Matches r t × Matches q u
Matches (alt r q) s = Matches r s ⊎ Matches q s
Matches (star r) s = Repeated (Matches r) s

nullable-Matches : (r : Regex) → nullable r ≡ true → Matches r []
unfolding nullable
nullable-Matches fail h = cc
nullable-Matches empty h = refl
nullable-Matches (one p) h = cc
nullable-Matches (seq r q) h =
    ([], [], refl, nullable-Matches r (ground (arith, h)), nullable-Matches q (ground (arith, h)))
nullable-Matches (alt r q) h = elim (Bool-cases (nullable r)) [
  | inl left ↦ inl (nullable-Matches r left)
  | inr right ↦ inr (nullable-Matches q (ground (arith, h, right)))
]
nullable-Matches (star r) h = none_left refl

nil-append : (t u : Bytes) → [] ≡ t ++ u → (t ≡ []) × (u ≡ [])
nil-append [] u e = (refl, sym e)
nil-append (c ∷ t) u e = cc

Matches-nullable : (r : Regex) → Matches r [] → nullable r ≡ true
unfolding nullable
Matches-nullable fail h = absurd h
Matches-nullable empty h = refl
Matches-nullable (one p) (c, e, h) = cc
Matches-nullable (seq r q) (t, u, e, m, n) =
    let (et, eu) = nil-append t u e in
    ground (
      arith,
      Matches-nullable r (subst (Matches r) et m),
      Matches-nullable q (subst (Matches q) eu n),
    )
Matches-nullable (alt r q) (inl m) = ground (arith, Matches-nullable r m)
Matches-nullable (alt r q) (inr n) = ground (arith, Matches-nullable q n)
Matches-nullable (star r) h = refl

-- What a derivative describes is what stands behind the byte.
derive-Matches : (c : ℕ) (r : Regex) (s : Bytes) → Matches (derive c r) s → Matches r (c ∷ s)
unfolding derive
derive-Matches c fail s h = absurd h
derive-Matches c empty s h = absurd h
derive-Matches c (one p) s h = elim (Bool-cases (p c)) [
  | inl holds ↦ (c, ap (◌∷◌ c) (rw holds at h), holds)
  | inr fails ↦ absurd (rw fails at h)
]
derive-Matches c (seq r q) s h = elim (Bool-cases (nullable r)) [
  | inr fails ↦
      let (t, u, e, m, n) : Matches (seq (derive c r) q) s = rw fails at h in
      (c ∷ t, u, ap (◌∷◌ c) e, derive-Matches c r t m, n)
  | inl holds ↦ elim (rw holds at h) [
    | inl (t, u, e, m, n) ↦ (c ∷ t, u, ap (◌∷◌ c) e, derive-Matches c r t m, n)
    | inr m ↦ ([], c ∷ s, refl, nullable-Matches r holds, derive-Matches c q s m)
  ]
]
derive-Matches c (alt r q) s (inl m) = inl (derive-Matches c r s m)
derive-Matches c (alt r q) s (inr n) = inr (derive-Matches c q s n)
derive-Matches c (star r) s (t, u, e, m, n) = more c t u (ap (◌∷◌ c) e) (derive-Matches c r t m) n

Matches-derive : (c : ℕ) (r : Regex) (s : Bytes) → Matches r (c ∷ s) → Matches (derive c r) s
unfolding derive
Matches-derive c fail s h = absurd h
Matches-derive c empty s h = cc
Matches-derive c (one p) s (d, e, h) =
    let first : p c ≡ true = subst (λ x. p x ≡ true) (sym (head-eq_of_cons-eq e)) h in
    rw first (tail-eq_of_cons-eq e)
Matches-derive c (seq r q) s ([], u, e, m, n) =
    let rest = Matches-derive c q s (subst (Matches q) (sym e) n) in
    rw (Matches-nullable r m) (inr rest)
Matches-derive c (seq r q) s (d ∷ t, u, e, m, n) =
    let first =
      Matches-derive c r t (subst (λ x. Matches r (x ∷ t)) (sym (head-eq_of_cons-eq e)) m) in
    let both : Matches (seq (derive c r) q) s = (t, u, tail-eq_of_cons-eq e, first, n) in
    elim (Bool-cases (nullable r)) [ inl holds ↦ rw holds (inl both) | inr fails ↦ rw fails both ]
Matches-derive c (alt r q) s (inl m) = inl (Matches-derive c r s m)
Matches-derive c (alt r q) s (inr n) = inr (Matches-derive c q s n)
Matches-derive c (star r) s (none_left e) = cc
Matches-derive c (star r) s (more d t u e m n) =
    let first =
      Matches-derive c r t (subst (λ x. Matches r (x ∷ t)) (sym (head-eq_of_cons-eq e)) m) in
    (t, u, tail-eq_of_cons-eq e, first, n)

-- std::regex_match is true just of the texts that the expression describes.
pub regex_match_iff : (r : Regex) (s : Bytes) → (regex_match r s ≡ true) ↔ Matches r s
unfolding regex_match
regex_match_iff r [] = (nullable-Matches r, Matches-nullable r)
regex_match_iff r (c ∷ s) =
    let (found, described) = regex_match_iff (derive c r) s in
    ((λ h. derive-Matches c r s (found h)), λ m. described (Matches-derive c r s m))

-- A text that begins with one that the expression describes, and one that has such a text in it.
abbrev pub Begins : Regex → Bytes → Type 0
Begins r s = (t : Bytes) × (u : Bytes) × (s ≡ t ++ u) × Matches r t

abbrev pub Contains : Regex → Bytes → Type 0
Contains r s = (a : Bytes) × (t : Bytes) × (b : Bytes) × (s ≡ a ++ (t ++ b)) × Matches r t

match_prefix-Begins : (r : Regex) (s : Bytes) → match_prefix r s ≡ true → Begins r s
unfolding match_prefix
match_prefix-Begins r [] h = ([], [], refl, nullable-Matches r h)
match_prefix-Begins r (c ∷ s) h = elim (Bool-cases (nullable r)) [
  | inl holds ↦ ([], c ∷ s, refl, nullable-Matches r holds)
  | inr fails ↦
      let (t, u, e, m) = match_prefix-Begins (derive c r) s (rw fails at h) in
      (c ∷ t, u, ap (◌∷◌ c) e, derive-Matches c r t m)
]

Begins-match_prefix : (r : Regex) (s : Bytes) → Begins r s → match_prefix r s ≡ true
unfolding match_prefix
Begins-match_prefix r [] (t, u, e, m) =
    Matches-nullable r (subst (Matches r) (nil-append t u e).0 m)
Begins-match_prefix r (c ∷ s) ([], u, e, m) = rw (Matches-nullable r m) refl
Begins-match_prefix r (c ∷ s) (d ∷ t, u, e, m) =
    let first =
      Matches-derive c r t (subst (λ x. Matches r (x ∷ t)) (sym (head-eq_of_cons-eq e)) m) in
    ground (arith, Begins-match_prefix (derive c r) s (t, u, tail-eq_of_cons-eq e, first))

regex_search-Contains : (r : Regex) (s : Bytes) → regex_search r s ≡ true → Contains r s
unfolding regex_search
regex_search-Contains r [] h = ([], [], [], refl, nullable-Matches r h)
regex_search-Contains r (c ∷ s) h = elim (Bool-cases (match_prefix r (c ∷ s))) [
  | inl here ↦ let (t, u, e, m) = match_prefix-Begins r (c ∷ s) here in ([], t, u, e, m)
  | inr later ↦
      let (a, t, b, e, m) = regex_search-Contains r s (rw later at h) in
      (c ∷ a, t, b, ap (◌∷◌ c) e, m)
]

Contains-regex_search : (r : Regex) (s : Bytes) → Contains r s → regex_search r s ≡ true
unfolding regex_search
Contains-regex_search r [] ([], t, b, e, m) =
    Matches-nullable r (subst (Matches r) (nil-append t b e).0 m)
Contains-regex_search r [] (d ∷ a, t, b, e, m) = cc
Contains-regex_search r (c ∷ s) ([], t, b, e, m) =
    rw (Begins-match_prefix r (c ∷ s) (t, b, e, m)) refl
Contains-regex_search r (c ∷ s) (d ∷ a, t, b, e, m) =
    ground (arith, Contains-regex_search r s (a, t, b, tail-eq_of_cons-eq e, m))

-- std::regex_search is true just of the texts that have one in them that the expression describes.
pub regex_search_iff : (r : Regex) (s : Bytes) → (regex_search r s ≡ true) ↔ Contains r s
regex_search_iff r s = (regex_search-Contains r s, Contains-regex_search r s)
