-- ===== src/RequestParser/Steps.antt =====
-- One round of the loop of `Parse`, for each outcome of `NextCharHandler`.
use cs130capstoneproject.Base.{ℕ, ◌≡◌, ◌≢◌, ◌⊎◌, inl, inr, refl, none, some, ◌∷◌, arith}
use cs130capstoneproject.Base.Bytes.{Bytes}
use cs130capstoneproject.RequestParser.Request.{Request}
use cs130capstoneproject.RequestParser.State.{Result, good, bad, undefined, Parser}
use cs130capstoneproject.RequestParser.Step.{Outcome, next_char_handler}
use cs130capstoneproject.RequestParser.Parse.{finish, parse}

pub Outcome-cases :
    (o : Outcome)
    → (o ≡ none)
      ⊎ ((q : Parser) × (o ≡ some (undefined, q)))
      ⊎ ((r : Result) × (q : Parser) × (r ≢ undefined) × (o ≡ some (r, q)))
Outcome-cases none = inl refl
Outcome-cases (some (undefined, q)) = inr (inl (q, refl))
Outcome-cases (some (good, q)) = inr (inr (good, q, (λ e. cc), refl))
Outcome-cases (some (bad, q)) = inr (inr (bad, q, (λ e. cc), refl))

module _ (p : Parser) (req : Request) (c : ℕ) (s : Bytes) where
  pub parse-fault : next_char_handler p c ≡ none → parse p req (c ∷ s) ≡ none
  unfolding parse
  parse-fault e = ground arith

  pub parse-more :
      (q : Parser)
      → next_char_handler p c ≡ some (undefined, q)
      → parse p req (c ∷ s) ≡ parse q req s
  unfolding parse
  parse-more q e = ground arith

  pub parse-end :
      (r : Result) (q : Parser)
      → r ≢ undefined
      → next_char_handler p c ≡ some (r, q)
      → parse p req (c ∷ s) ≡ finish r q s
  unfolding parse
  parse-end r q h e = ground arith
