-- ===== src/Base/Lists.antt =====
-- Lists measured and indexed by native numbers, under the library's names.
use Prim.Native.Nat.{ℕ, zero, suc, ◌+◌}
use mathlib.Core.Path.{◌≡◌, refl, ap}
use mathlib.Core.Logic.{◌≢◌}
use mathlib.Core.List.{List, [], ◌∷◌, ◌++◌}
use mathlib.Core.Option.{Option, none, some}
use native.Mathlib.Omega.{arith}

module _ {ℓ} {A : Type ℓ} where
  abbrev pub length : List A → ℕ
  length [] = 0
  length (x ∷ xs) = suc (length xs)

  abbrev pub get_elem? : List A → ℕ → Option A
  get_elem? [] i = none
  get_elem? (x ∷ xs) zero = some x
  get_elem? (x ∷ xs) (suc i) = get_elem? xs i

  abbrev pub take : ℕ → List A → List A
  take zero xs = []
  take (suc n) [] = []
  take (suc n) (x ∷ xs) = x ∷ take n xs

  abbrev pub drop : ℕ → List A → List A
  drop zero xs = xs
  drop (suc n) [] = []
  drop (suc n) (x ∷ xs) = drop n xs

  pub length-append : (xs ys : List A) → length (xs ++ ys) ≡ length xs + length ys
  length-append [] ys = omega arith
  length-append (x ∷ xs) ys = omega (arith, length-append xs ys)

  -- The last element, as `back()` reads it.
  abbrev pub get_last? : List A → Option A
  get_last? [] = none
  get_last? (x ∷ []) = some x
  get_last? (x ∷ y ∷ xs) = get_last? (y ∷ xs)

  pub get_last?-concat : (xs : List A) (x : A) → get_last? (xs ++ x ∷ []) ≡ some x
  get_last?-concat [] x = refl
  get_last?-concat (y ∷ []) x = refl
  get_last?-concat (y ∷ z ∷ xs) x = get_last?-concat (z ∷ xs) x

  pub take_self : (xs ys : List A) → take (length xs) (xs ++ ys) ≡ xs
  take_self [] ys = refl
  take_self (x ∷ xs) ys = λ i. x ∷ take_self xs ys i

  pub drop_self : (xs ys : List A) → drop (length xs) (xs ++ ys) ≡ ys
  drop_self [] ys = refl
  drop_self (x ∷ xs) ys = drop_self xs ys

  -- An element in the place of the one at an index; the list itself, if the index is out of range.
  abbrev pub update : ℕ → A → List A → List A
  update i x [] = []
  update zero x (y ∷ ys) = x ∷ ys
  update (suc i) x (y ∷ ys) = y ∷ update i x ys

  pub get_elem?-update :
      (i : ℕ) (x y : A) (xs : List A)
      → get_elem? xs i ≡ some y
      → get_elem? (update i x xs) i ≡ some x
  get_elem?-update i x y [] h = cc
  get_elem?-update zero x y (z ∷ xs) h = refl
  get_elem?-update (suc i) x y (z ∷ xs) h = get_elem?-update i x y xs h

  pub get_elem?-update_other :
      (i j : ℕ) (x : A) (xs : List A) → i ≢ j → get_elem? (update i x xs) j ≡ get_elem? xs j
  get_elem?-update_other i j x [] ne = refl
  get_elem?-update_other zero zero x (y ∷ xs) ne = absurd (ne refl)
  get_elem?-update_other zero (suc j) x (y ∷ xs) ne = refl
  get_elem?-update_other (suc i) zero x (y ∷ xs) ne = refl
  get_elem?-update_other (suc i) (suc j) x (y ∷ xs) ne =
      get_elem?-update_other i j x xs λ e. ne (ap suc e)

  pub get_elem?-append :
      (i : ℕ) (y : A) (xs ys : List A) → get_elem? xs i ≡ some y → get_elem? (xs ++ ys) i ≡ some y
  get_elem?-append i y [] ys h = cc
  get_elem?-append zero y (x ∷ xs) ys h = h
  get_elem?-append (suc i) y (x ∷ xs) ys h = get_elem?-append i y xs ys h
