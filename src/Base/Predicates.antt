-- ===== src/Base/Predicates.antt =====
-- What holds of every element of a list, by recursion, so that tactics read and build it.
use Prim.Native.Nat.{ℕ, zero, suc}
use mathlib.Core.Path.{◌≡◌, subst}
use mathlib.Core.Option.{some, some_inj}
use mathlib.Core.List.{List, [], ◌∷◌, ◌++◌}
use cs130capstoneproject.Base.Lists.{get_elem?, update}

module _ {ℓ κ} {A : Type ℓ} (P : A → Type κ) where
  abbrev pub All : List A → Type κ
  All [] = Unit
  All (x ∷ xs) = P x × All xs

  pub All-append : (xs ys : List A) → All xs → All ys → All (xs ++ ys)
  All-append [] ys hx hy = hy
  All-append (x ∷ xs) ys (p, hx) hy = (p, All-append xs ys hx hy)

  pub All-concat : (xs : List A) {x : A} → All xs → P x → All (xs ++ x ∷ [])
  All-concat xs {x} h p = All-append xs (x ∷ []) h (p, tt)

  pub All-update : (i : ℕ) (x : A) (xs : List A) → P x → All xs → All (update i x xs)
  All-update i x [] p h = tt
  All-update zero x (y ∷ xs) p (_, h) = (p, h)
  All-update (suc i) x (y ∷ xs) p (q, h) = (q, All-update i x xs p h)

  pub All-get_elem? : (i : ℕ) (x : A) (xs : List A) → All xs → get_elem? xs i ≡ some x → P x
  All-get_elem? i x [] h e = cc
  All-get_elem? zero x (y ∷ xs) (p, h) e = subst P (some_inj.0 e) p
  All-get_elem? (suc i) x (y ∷ xs) (p, h) e = All-get_elem? i x xs h e
