-- ===== src/Config/RoundTrip/Rounds.antt =====
-- Rounds of the loop of `Parse`, put together.
use cs130capstoneproject.Base.{ℕ, zero, suc, ◌≡◌, refl, ap, ◌∙◌, arith}
use cs130capstoneproject.Base.Bytes.{Bytes}
use cs130capstoneproject.Config.Lexer.{Token, parse_token}
use cs130capstoneproject.Config.Parser.{State, next, step, loop}
use cs130capstoneproject.Config.Termination.{loop-next}

-- `n` more rounds than `f`
abbrev pub more_rounds : ℕ → ℕ → ℕ
more_rounds zero f = f
more_rounds (suc n) f = suc (more_rounds n f)

pub more_rounds_assoc :
    (n m f : ℕ) → more_rounds (more_rounds n m) f ≡ more_rounds n (more_rounds m f)
more_rounds_assoc zero m f = refl
more_rounds_assoc (suc n) m f = ap suc (more_rounds_assoc n m f)

-- Some rounds lead from one state and input to another.
pub record Goes (s : State) (input : Bytes) (s' : State) (input' : Bytes) : Type 0 where
  pub rounds : ℕ
  pub goes : (f : ℕ) → loop (more_rounds rounds f) s input ≡ loop f s' input'

pub Goes-refl : (s : State) (input : Bytes) → Goes s input s input
Goes-refl s input = record { rounds = 0; goes = λ f. refl }

pub Goes-trans : {s t u : State} {i j k : Bytes} → Goes s i t j → Goes t j u k → Goes s i u k
Goes-trans {s} {t} {u} {i} a b = record {
  rounds = more_rounds a.rounds b.rounds;
  goes =
      λ f. rw (more_rounds_assoc a.rounds b.rounds f) (a.goes (more_rounds b.rounds f) ∙ b.goes f);
}

loop_skip :
    (f : ℕ) (s : State) (i j : Bytes) → parse_token i ≡ parse_token j → loop f s i ≡ loop f s j
unfolding loop
loop_skip zero s i j e = refl
loop_skip (suc f) s i j e = ground arith

-- White space that the next token skips.
pub Goes-skip : {s : State} {i j : Bytes} → parse_token i ≡ parse_token j → Goes s i s j
Goes-skip {s} {i} {j} e = record { rounds = 0; goes = λ f. loop_skip f s i j e }

-- One round.
pub Goes-token :
    {s s' : State} {i : Bytes} (t : Token)
    → parse_token i ≡ t
    → step s t ≡ next s'
    → Goes s i s' t.rest
Goes-token {s} {s'} {i} t e step_eq = record {
  rounds = 1;
  goes = λ f. loop-next f s i s' (rw e step_eq) ∙ rw e;
}
