-- ===== src/Session/Nearest.antt =====
-- The handler that is found is the nearest one above the URI.
use cs130capstoneproject.Base.{
  ℕ, zero, suc, ◌<◌, ◌≡◌, ◌≢◌, refl, ap, ◌∙◌, ◌⊎◌, inl, inr, Bool, true, false, Option, none, some,
  [], ◌∷◌, ◌++◌, append_assoc, length, length-append, take, drop, arith, Option-cases,
}
use cs130capstoneproject.Base.Bytes.{Bytes, codes, starts_with, find_last}
use cs130capstoneproject.Base.Map.{Map, lookup}
use cs130capstoneproject.Session.Routing.{quoted, first_key, search, route}

pub find_last-none : (c : ℕ) (s q r : Bytes) → find_last c s ≡ none → s ≢ q ++ c ∷ r
unfolding find_last
find_last-none c [] [] r h e = cc
find_last-none c [] (y ∷ q) r h e = cc
find_last-none c (x ∷ s) [] r h e = ground arith
find_last-none c (x ∷ s) (y ∷ q) r h e = ground (arith, find_last-none c s q r)

pub find_last-splits :
    (c : ℕ) (s : Bytes) (n : ℕ)
    → find_last c s ≡ some n
    → (s ≡ take n s ++ c ∷ drop (suc n) s) × (length (take n s) < length s)
unfolding find_last
find_last-splits c [] n h = cc
find_last-splits c (x ∷ s) zero h = (ground arith, omega arith)
find_last-splits c (x ∷ s) (suc n) h =
    let rest = find_last-splits c s n (ground arith) in (ap (◌∷◌ x) rest.0, omega (arith, rest.1))

find_last-last :
    (c : ℕ) (s q r : Bytes) (n : ℕ)
    → find_last c s ≡ some n
    → s ≡ q ++ c ∷ r
    → (q ≡ take n s) ⊎ ((r' : Bytes) × (take n s ≡ q ++ c ∷ r'))
unfolding find_last
find_last-last c [] q r n h e = cc
find_last-last c (x ∷ s) [] r zero h e = inl refl
find_last-last c (x ∷ s) [] r (suc n) h e = inr (take n s, ground arith)
find_last-last c (x ∷ s) (y ∷ q) r zero h e =
    absurd (find_last-none c s q r (ground arith) (ground arith))
find_last-last c (x ∷ s) (y ∷ q) r (suc n) h e =
    elim (find_last-last c s q r n (ground arith) (ground arith)) [
      | inl same ↦ inl (ground arith)
      | inr (r', same) ↦ inr (r', ground arith)
    ]

-- `q` is the URI itself, or what stands before one of its slashes.
abbrev pub Above : Bytes → Bytes → Type 0
Above q uri = (q ≡ uri) ⊎ ((r : Bytes) × (uri ≡ q ++ b'/' ∷ r))

-- What is above a URI is the URI, or above what stands before its last slash.
pub Above-take :
    (uri q : Bytes) (n : ℕ)
    → find_last b'/' uri ≡ some n
    → Above q uri
    → (q ≡ uri) ⊎ Above q (take n uri)
Above-take uri q n h (inl e) = inl e
Above-take uri q n h (inr (r, e)) = inr (find_last-last b'/' uri q r n h e)

pub take-Above :
    (uri q : Bytes) (n : ℕ) → find_last b'/' uri ≡ some n → Above q (take n uri) → Above q uri
take-Above uri q n h (inl e) = inr (drop (suc n) uri, rw e ((find_last-splits b'/' uri n h).0))
take-Above uri q n h (inr (r, e)) =
    let rest = b'/' ∷ drop (suc n) uri in
    inr (
      r ++ rest,
      (find_last-splits b'/' uri n h).0 ∙ ap (λ t. t ++ rest) e ∙ append_assoc q (b'/' ∷ r) rest,
    )

pub Above-length : (q uri : Bytes) → Above q uri → length q < suc (length uri)
Above-length q uri (inl e) = rw e (omega arith)
Above-length q uri (inr (r, e)) = rw e (omega (arith, length-append q (b'/' ∷ r)))

module _ {V : Type 0} (handlers : Map V) where
  -- The key of the longest prefix above the URI that has a handler.
  pub record IsNearest (uri key : Bytes) : Type 0 where
    pub prefix : Bytes
    pub above : Above prefix uri
    pub names : key ≡ quoted prefix
    pub registered : lookup key handlers ≢ none
    pub nearest :
        (q : Bytes) → Above q uri → length prefix < length q → lookup (quoted q) handlers ≡ none

  -- What a result of the search says; there is always one.
  abbrev pub IsRoute : Bytes → Option (Bool × Bytes) → Type 0
  IsRoute uri none = ⊥
  IsRoute uri (some (true, key)) = IsNearest uri key
  IsRoute uri (some (false, key)) = (q : Bytes) → Above q uri → lookup (quoted q) handlers ≡ none

  -- What holds of the prefix holds of the URI, if that has no handler itself.
  IsRoute-take :
      (uri : Bytes) (n : ℕ) (result : Option (Bool × Bytes))
      → find_last b'/' uri ≡ some n
      → lookup (quoted uri) handlers ≡ none
      → IsRoute (take n uri) result
      → IsRoute uri result
  IsRoute-take uri n none h k i = i
  IsRoute-take uri n (some (true, key)) h k i = record {
    prefix = i.prefix;
    above = take-Above uri i.prefix n h i.above;
    names = i.names;
    registered = i.registered;
    nearest =
        λ q a l. elim (Above-take uri q n h a) [ inl same ↦ rw same k | inr up ↦ i.nearest q up l ];
  }
  IsRoute-take uri n (some (false, key)) h k i =
      λ q a. elim (Above-take uri q n h a) [ inl same ↦ rw same k | inr up ↦ i q up ]

  search-hit :
      (f : ℕ) (uri key : Bytes) (v : V)
      → lookup key handlers ≡ some v
      → search (suc f) handlers uri key ≡ some (true, key)
  unfolding search
  search-hit f uri key v e = ground arith

  search-miss :
      (f : ℕ) (uri key : Bytes)
      → lookup key handlers ≡ none
      → find_last b'/' uri ≡ none
      → search (suc f) handlers uri key ≡ some (false, key)
  unfolding search
  search-miss f uri key e top = ground arith

  search-up :
      (f : ℕ) (uri key : Bytes) (n : ℕ)
      → lookup key handlers ≡ none
      → find_last b'/' uri ≡ some n
      → search (suc f) handlers uri key ≡ search f handlers (take n uri) (quoted (take n uri))
  unfolding search
  search-up f uri key n e below = ground arith

  search-IsRoute :
      (f : ℕ) (uri : Bytes) → length uri < f → IsRoute uri (search f handlers uri (quoted uri))
  search-IsRoute zero uri l = absurd (omega arith)
  search-IsRoute (suc f) uri l = elim (Option-cases (lookup (quoted uri) handlers)) [
    | inr (h, e) ↦ rw (search-hit f uri (quoted uri) h e) (record {
      prefix = uri;
      above = inl refl;
      names = refl;
      registered = λ x. cc;
      nearest = λ q a longer. absurd (omega (arith, Above-length q uri a));
    })
    | inl missing ↦ elim (Option-cases (find_last b'/' uri)) [
      | inl top ↦ rw (search-miss f uri (quoted uri) missing top) (λ q a. elim a [
        | inl same ↦ rw same missing
        | inr (r, e) ↦ absurd (find_last-none b'/' uri q r top e)
      ])
      | inr (n, below) ↦ rw (search-up f uri (quoted uri) n missing below) (
          IsRoute-take uri n _ below missing
            (search-IsRoute f (take n uri) (omega (arith, (find_last-splits b'/' uri n below).1))))
    ]
  ]

  -- For a URI that does not begin with "http", the search ends. It finds the handler of the longest
  -- prefix of the URI that has one, among the URI and what stands before each of its slashes, and
  -- it finds none only if none of them has a handler.
  pub route-IsRoute :
      (uri : Bytes) → starts_with (codes "http") uri ≡ false → IsRoute uri (route handlers uri)
  unfolding route first_key
  route-IsRoute uri local = rw local (search-IsRoute (suc (length uri)) uri (omega arith))
