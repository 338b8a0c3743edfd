-- ===== src/Port/Rounds.antt =====
-- Rounds of the loops of `port::setConfigBlocks`, put together.
use cs130capstoneproject.Base.{
  ℕ, zero, suc, ◌+◌, ◌-◌, ◌≤◌, ◌≡◌, ◌≢◌, refl, ◌∙◌, true, false, some, List, [], ◌∷◌, arith,
}
use cs130capstoneproject.Base.Bytes.{Bytes, codes, equal}
use cs130capstoneproject.Config.Lexer.{get_token}
use cs130capstoneproject.Config.RoundTrip.Rounds.{more_rounds}
use cs130capstoneproject.Port.Skips.{Skips}
use cs130capstoneproject.Port.Blocks.{ConfigBlock, skip_to, read_token, read_blocks}

pub more_rounds-eq-add : (n f : ℕ) → more_rounds n f ≡ n + f
more_rounds-eq-add zero f = omega arith
more_rounds-eq-add (suc n) f = omega (arith, more_rounds-eq-add n f)

-- With enough rounds the loop ends behind its token.
pub skip_to-Skips :
    {stop t i rest : Bytes}
    → (s : Skips stop t i stop rest) → equal stop stop ≡ true
    → (f : ℕ) → suc s.rounds ≤ f
    → skip_to f stop t i ≡ some rest
unfolding skip_to
skip_to-Skips {stop} {t} {i} {rest} s same f h =
    let e : f ≡ more_rounds s.rounds (suc (f - s.rounds - 1)) =
      omega (arith, more_rounds-eq-add s.rounds (suc (f - s.rounds - 1))) in
    rw e (s.skips (suc (f - s.rounds - 1)) ∙ rw (same, skip_to) refl)

-- With enough rounds the loop over the tokens ends with these blocks.
pub record Reads (last token input : Bytes) (blocks out : List ConfigBlock) : Type 0 where
  pub rounds : ℕ
  pub reads : (f : ℕ) → rounds ≤ f → read_blocks f last token input blocks ≡ some out

pub read_blocks-end :
    (f : ℕ) (last input : Bytes) (blocks : List ConfigBlock)
    → 1 ≤ f
    → read_blocks f last [] input blocks ≡ some blocks
unfolding read_blocks
read_blocks-end zero last input blocks h = absurd (omega arith)
read_blocks-end (suc f) last input blocks h = refl

pub Reads-end : (last input : Bytes) (blocks : List ConfigBlock) → Reads last [] input blocks blocks
Reads-end last input blocks = record {
  rounds = 1;
  reads = λ f h. read_blocks-end f last input blocks h;
}

-- A round, with enough fuel for the loop in it and for what comes after.
pub read_blocks-round :
    (f k : ℕ) (last token input : Bytes) (blocks : List ConfigBlock) (token' rest : Bytes)
    (blocks' out : List ConfigBlock)
    → token ≢ []
    → ((f : ℕ)
        → k ≤ f
        → read_token f (equal last (codes "location")) token input blocks
          ≡ some (token', rest, blocks'))
    → (r : Reads token' (get_token rest).0 (get_token rest).1 blocks' out) → suc (k + r.rounds) ≤ f
    → read_blocks f last token input blocks ≡ some out
unfolding read_blocks
read_blocks-round zero k last token input blocks token' rest blocks' out ne goes r h =
    absurd (omega arith)
read_blocks-round (suc f) k last [] input blocks token' rest blocks' out ne goes r h =
    absurd (ne refl)
read_blocks-round (suc f) k last (c ∷ t) input blocks token' rest blocks' out ne goes r h =
    rw (goes f (omega arith), read_blocks) (r.reads f (omega arith))

pub Reads-round :
    (last token input : Bytes) (blocks : List ConfigBlock) (token' rest : Bytes)
    (blocks' out : List ConfigBlock) (k : ℕ)
    → token ≢ []
    → ((f : ℕ)
        → k ≤ f
        → read_token f (equal last (codes "location")) token input blocks
          ≡ some (token', rest, blocks'))
    → Reads token' (get_token rest).0 (get_token rest).1 blocks' out
    → Reads last token input blocks out
Reads-round last token input blocks token' rest blocks' out k ne goes r = record {
  rounds = suc (k + r.rounds);
  reads = λ f h. read_blocks-round f k last token input blocks token' rest blocks' out ne goes r h;
}

-- A token that is not behind the word "location".
pub Reads-token :
    (last token input : Bytes) (blocks out : List ConfigBlock)
    → token ≢ []
    → equal last (codes "location") ≡ false
    → Reads token (get_token input).0 (get_token input).1 blocks out
    → Reads last token input blocks out
Reads-token last token input blocks out ne other r =
    Reads-round last token input blocks token input blocks out 0 ne (λ f h. rw other refl) r
