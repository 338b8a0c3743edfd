-- ===== src/RequestParser/Totality.antt =====
-- The inputs on which `Parse` reads out of bounds.
use mathlib.Core.List.{concat-ne-nil}
use mathlib.Core.Path.{subst}
use cs130capstoneproject.Base.{
  ℕ, ◌≡◌, ◌≢◌, ◌↔◌, refl, ap, ◌⊎◌, inl, inr, Bool-cases, true, false, none, some, [], ◌∷◌, ◌++◌,
  arith, ◌==◌, All,
}
use cs130capstoneproject.Base.Bytes.{Bytes}
use cs130capstoneproject.RequestParser.Request.{Request}
use cs130capstoneproject.RequestParser.State.{
  bad, undefined, State, method_start, method, uri, Parser, fresh, is_special_char, is_separator,
}
use cs130capstoneproject.RequestParser.Step.{step_in, next_char_handler, read_byte}
use cs130capstoneproject.RequestParser.Parse.{parse}
use cs130capstoneproject.RequestParser.Steps.{Outcome-cases, parse-fault, parse-more, parse-end}
use cs130capstoneproject.RequestParser.Print.{IsToken}
use cs130capstoneproject.RequestParser.Safety.{
  Holds, IsSound, Faults, next_char_handler-none_iff, next_char_handler-IsSound,
}

-- The states from which an empty URI is no longer met.
abbrev PastUri : State → Parser → Type 0
PastUri method_start p = ⊥
PastUri method p = ⊥
PastUri uri p = p.uri ≢ []
PastUri _ p = Unit

step_in-PastUri :
    (s : State) (p : Parser) (c : ℕ) (q : Parser)
    → p.state ≡ s
    → PastUri s p
    → step_in s p c ≡ some (undefined, q)
    → PastUri q.state q
unfolding step_in
step_in-PastUri method_start p c q e h k = absurd h
step_in-PastUri uri p c q e h k = ground (arith, concat-ne-nil c p.uri)
step_in-PastUri _ p c q e h k = ground arith

PastUri-read_byte : (s : State) (p : Parser) (c : ℕ) → PastUri s p → PastUri s (read_byte p c)
PastUri-read_byte method_start p c h = h
PastUri-read_byte _ p c h = h

PastUri-Faults : (s : State) (p : Parser) (c : ℕ) → PastUri s p → ¬ (Faults s p c)
PastUri-Faults method_start p c h f = h
PastUri-Faults uri p c h f = h f.2
PastUri-Faults _ p c h f = cc (f.0)

-- A round without a fault faults only through the rounds behind it.
parse-cons-ne-none :
    (p : Parser) (req : Request) (c : ℕ) (s : Bytes)
    → IsSound p
    → ¬ (Faults p.state p c)
    → ((q : Parser) → next_char_handler p c ≡ some (undefined, q) → parse q req s ≢ none)
    → parse p req (c ∷ s) ≢ none
parse-cons-ne-none p req c s h f later e = elim (Outcome-cases (next_char_handler p c)) [
  | inl fault ↦ f ((next_char_handler-none_iff p c h).0 fault)
  | inr (inl (q, step)) ↦ later q step (rw (parse-more p req c s q step) at e)
  | inr (inr (r, q, last, step)) ↦ cc (e, parse-end p req c s r q last step)
]

-- With a URI that is not empty behind it, the parser always returns.
parse-ne-none :
    (s : Bytes) (p : Parser) (req : Request) → IsSound p → PastUri p.state p → parse p req s ≢ none
parse-ne-none [] p req h k e = unfold parse in cc
parse-ne-none (c ∷ s) p req h k e =
    parse-cons-ne-none p req c s h (PastUri-Faults p.state p c k)
      (λ q step. parse-ne-none s q req (next_char_handler-IsSound p c q h step) (
        step_in-PastUri p.state (read_byte p c) c q refl (PastUri-read_byte p.state p c k)
          (unfold next_char_handler in step)))
      e

uri_byte-PastUri :
    (p : Parser) (c : ℕ) (q : Parser)
    → p.state ≡ uri
    → (c == b' ') ≡ false
    → step_in uri (read_byte p c) c ≡ some (undefined, q)
    → PastUri q.state q
unfolding step_in
uri_byte-PastUri p c q e other k = ground (arith, concat-ne-nil c p.uri)

abbrev StartsBlank : Bytes → Type 0
StartsBlank [] = ⊥
StartsBlank (c ∷ s) = c ≡ b' '

-- In the URI state, with no URI yet.
blank_uri_iff :
    (s : Bytes) (p : Parser) (req : Request)
    → IsSound p
    → p.state ≡ uri
    → p.uri ≡ []
    → (parse p req s ≡ none) ↔ StartsBlank s
blank_uri_iff [] p req h e u = (λ k. unfold parse in cc, λ k. absurd k)
blank_uri_iff (c ∷ s) p req h e u = elim (Bool-cases (c == b' ')) [
  | inl space ↦ (
    λ _. ground arith,
    λ k. parse-fault p req c s ((next_char_handler-none_iff p c h).1 (e, k, u)),
  )
  | inr other ↦ (
    λ k. absurd (
        parse-cons-ne-none p req c s h (λ f. ground arith)
          (λ q step. parse-ne-none s q req (next_char_handler-IsSound p c q h step) (
            uri_byte-PastUri p c q e other (
              unfold next_char_handler in
              subst (λ x. step_in x (read_byte p c) c ≡ some (undefined, q)) e step)))
          k),
    λ k. ground arith,
  )
]

-- In the method state: the rest of the method, and two spaces.
abbrev FaultsInMethod : Bytes → Type 0
FaultsInMethod [] = ⊥
FaultsInMethod (c ∷ s) = (c ≡ b' ') × StartsBlank s ⊎ (is_separator c ≡ false) × FaultsInMethod s

space-is_separator : (c : ℕ) → (c == b' ') ≡ true → is_separator c ≡ true
unfolding is_separator is_special_char
space-is_separator c h = ground arith

method_space :
    (p : Parser) (c : ℕ)
    → p.state ≡ method
    → (c == b' ') ≡ true
    → next_char_handler p c ≡ some (undefined, record (read_byte p c) { state = uri })
unfolding next_char_handler step_in
method_space p c e h = rw (e, h)

method_token :
    (p : Parser) (c : ℕ)
    → p.state ≡ method
    → (c == b' ') ≡ false
    → is_separator c ≡ false
    → next_char_handler p c
      ≡ some (undefined, record (read_byte p c) { state = method; method = p.method ++ c ∷ [] })
unfolding next_char_handler step_in
method_token p c e h k = rw (e, h, k)

method_bad :
    (p : Parser) (c : ℕ)
    → p.state ≡ method
    → (c == b' ') ≡ false
    → is_separator c ≡ true
    → next_char_handler p c ≡ some (bad, read_byte p c)
unfolding next_char_handler step_in
method_bad p c e h k = rw (e, h, k)

method_faults_iff :
    (s : Bytes) (p : Parser) (req : Request)
    → IsSound p
    → p.state ≡ method
    → p.uri ≡ []
    → (parse p req s ≡ none) ↔ FaultsInMethod s
method_faults_iff [] p req h e u = (λ k. unfold parse in cc, λ k. absurd k)
method_faults_iff (c ∷ s) p req h e u = elim (Bool-cases (c == b' ')) [
  | inl space ↦
      let ih =
        blank_uri_iff s (record (read_byte p c) { state = uri }) req (subst (λ x. Holds x p) e h)
          refl u in
      rw (parse-more p req c s _ (method_space p c e space))
        (λ k. ground (arith, ih.0 k), λ k. ground (arith, ih.1, space-is_separator c space))
  | inr other ↦ elim (Bool-cases (is_separator c)) [
    | inl sep ↦ (
      λ k. ground (arith, parse-end p req c s bad _ (λ x. cc) (method_bad p c e other sep)),
      λ k. ground arith,
    )
    | inr token ↦
        let q = record (read_byte p c) { state = method; method = p.method ++ c ∷ [] } in
        let ih = method_faults_iff s q req (subst (λ x. Holds x p) e h) refl u in
        rw (parse-more p req c s q (method_token p c e other token))
          (λ k. inr (token, ih.0 k), λ k. ground (arith, ih.1))
  ]
]

abbrev FaultsAtStart : Bytes → Type 0
FaultsAtStart [] = ⊥
FaultsAtStart (c ∷ s) = (is_separator c ≡ false) × FaultsInMethod s

start_token :
    (r c : ℕ)
    → is_separator c ≡ false
    → next_char_handler (fresh r) c
      ≡ some (undefined, record (read_byte (fresh r) c) { state = method; method = c ∷ [] })
unfolding next_char_handler step_in
start_token r c k = rw k

start_bad :
    (r c : ℕ)
    → is_separator c ≡ true
    → next_char_handler (fresh r) c ≡ some (bad, read_byte (fresh r) c)
unfolding next_char_handler step_in
start_bad r c k = rw k

fresh_faults_iff :
    (r : ℕ) (req : Request) (s : Bytes) → (parse (fresh r) req s ≡ none) ↔ FaultsAtStart s
fresh_faults_iff r req [] = (λ k. unfold parse in cc, λ k. absurd k)
fresh_faults_iff r req (c ∷ s) = elim (Bool-cases (is_separator c)) [
  | inl sep ↦ (
    λ k. ground (arith, parse-end (fresh r) req c s bad _ (λ x. cc) (start_bad r c sep)),
    λ k. ground arith,
  )
  | inr token ↦
      let q = record (read_byte (fresh r) c) { state = method; method = c ∷ [] } in
      let ih = method_faults_iff s q req refl refl refl in
      rw (parse-more (fresh r) req c s q (start_token r c token))
        (λ k. (token, ih.0 k), λ k. ih.1 k.1)
]

-- A method, and then two spaces: the URI between them is empty.
pub record HasBlankUri (s : Bytes) : Type 0 where
  pub method : Bytes
  pub rest : Bytes
  pub is_token : IsToken method
  pub splits : s ≡ method ++ b' ' ∷ b' ' ∷ rest

FaultsInMethod-splits :
    (s : Bytes)
    → FaultsInMethod s
    → (m : Bytes) × (rest : Bytes) × All (λ c. is_separator c ≡ false) m
      × (s ≡ m ++ b' ' ∷ b' ' ∷ rest)
FaultsInMethod-splits [] k = absurd k
FaultsInMethod-splits (c ∷ []) (inl (e, k)) = absurd k
FaultsInMethod-splits (c ∷ d ∷ s) (inl (e, k)) = ([], s, tt, cc)
FaultsInMethod-splits (c ∷ s) (inr (t, k)) =
    let (m, rest, token, e) = FaultsInMethod-splits s k in (c ∷ m, rest, (t, token), ap (◌∷◌ c) e)

FaultsInMethod-of_splits :
    (m rest : Bytes)
    → All (λ c. is_separator c ≡ false) m
    → FaultsInMethod (m ++ b' ' ∷ b' ' ∷ rest)
FaultsInMethod-of_splits [] rest t = inl (refl, refl)
FaultsInMethod-of_splits (c ∷ m) rest (t, ts) = inr (t, FaultsInMethod-of_splits m rest ts)

FaultsAtStart-of_splits : (m rest : Bytes) → IsToken m → FaultsAtStart (m ++ b' ' ∷ b' ' ∷ rest)
FaultsAtStart-of_splits [] rest t = absurd (t.0 refl)
FaultsAtStart-of_splits (c ∷ m) rest (_, (t, ts)) = (t, FaultsInMethod-of_splits m rest ts)

FaultsAtStart-of_HasBlankUri : {s : Bytes} → HasBlankUri s → FaultsAtStart s
FaultsAtStart-of_HasBlankUri h = rw h.splits (FaultsAtStart-of_splits h.method h.rest h.is_token)

FaultsAtStart-iff : (s : Bytes) → FaultsAtStart s ↔ HasBlankUri s
FaultsAtStart-iff [] = (λ k. absurd k, FaultsAtStart-of_HasBlankUri)
FaultsAtStart-iff (c ∷ s) = (
  λ k.
      let (m, rest, token, e) = FaultsInMethod-splits s k.1 in
      record {
        method = c ∷ m;
        rest = rest;
        is_token = (λ x. cc, (k.0, token));
        splits = ap (◌∷◌ c) e;
      },
  FaultsAtStart-of_HasBlankUri,
)

-- `Parse` on a new parser reads out of bounds exactly on the inputs that begin with a method and
-- two spaces; on all others it returns, whatever the bytes.
pub parse-none_iff :
    (r : ℕ) (req : Request) (s : Bytes) → (parse (fresh r) req s ≡ none) ↔ HasBlankUri s
parse-none_iff r req s = (
  λ e. (FaultsAtStart-iff s).0 ((fresh_faults_iff r req s).0 e),
  λ h. (fresh_faults_iff r req s).1 ((FaultsAtStart-iff s).1 h),
)
