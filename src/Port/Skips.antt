-- ===== src/Port/Skips.antt =====
-- How the loops of `port::setConfigBlocks` go over the text of a block.
use cs130capstoneproject.Base.{
  ℕ, ◌≡◌, refl, ◌∙◌, true, false, List, [], ◌∷◌, ◌++◌, append_assoc, arith, All, inl, inr,
}
use cs130capstoneproject.Base.Bytes.{Bytes, codes, equal}
use cs130capstoneproject.Config.Syntax.{
  Config, nil, cons, simple, block, join, indent, config_to_string, statement_to_string,
}
use cs130capstoneproject.Config.Lexer.{get_token, parse_token, token_from, step_token, ends_token}
use cs130capstoneproject.Config.Lexing.{
  IsToken, parse_token-IsToken, parse_token-space, parse_token-newline, parse_token-indent,
}
use cs130capstoneproject.Config.RoundTrip.Printable.{AreTokens}
use cs130capstoneproject.Config.RoundTrip.Rounds.{more_rounds, more_rounds_assoc}
use cs130capstoneproject.Port.Blocks.{skip_to}

pub get_token-IsToken :
    (t rest : Bytes) (d : ℕ)
    → IsToken t
    → ends_token d ≡ true
    → get_token (t ++ d ∷ rest) ≡ (t, d ∷ rest)
unfolding get_token
get_token-IsToken t rest d h e = rw (parse_token-IsToken t rest d h e)

pub get_token-space : (s : Bytes) → get_token (b' ' ∷ s) ≡ get_token s
unfolding get_token
get_token-space s = rw (parse_token-space s)

pub get_token-newline : (s : Bytes) → get_token (b'\n' ∷ s) ≡ get_token s
unfolding get_token
get_token-newline s = rw (parse_token-newline s)

pub get_token-indent : (d : ℕ) (s : Bytes) → get_token (indent d ++ s) ≡ get_token s
unfolding get_token
get_token-indent d s = rw (parse_token-indent d s)

-- The tokens of one byte.
pub get_token-open : (s : Bytes) → get_token (b'{' ∷ s) ≡ (codes "{", s)
unfolding get_token parse_token token_from step_token
get_token-open s = refl

pub get_token-close : (s : Bytes) → get_token (b'}' ∷ s) ≡ (codes "}", s)
unfolding get_token parse_token token_from step_token
get_token-close s = refl

pub get_token-end : (s : Bytes) → get_token (b';' ∷ s) ≡ (codes ";", s)
unfolding get_token parse_token token_from step_token
get_token-end s = refl

-- A token that can be printed is none of these.
pub IsToken-ne :
    (t : Bytes)
    → IsToken t
    → (equal t (codes "}") ≡ false) × (equal t (codes ";") ≡ false) × (equal t (codes "{") ≡ false)
unfolding equal
IsToken-ne [] (inl h) = absurd h
IsToken-ne [] (inr (inl (i, q, _))) = absurd (cc q)
IsToken-ne [] (inr (inr (i, q, _))) = absurd (cc q)
IsToken-ne (c ∷ s) (inl (h, _)) = (ground arith, ground arith, ground arith)
IsToken-ne (c ∷ s) (inr (inl (i, q, _))) = (ground arith, ground arith, ground arith)
IsToken-ne (c ∷ s) (inr (inr (i, q, _))) = (ground arith, ground arith, ground arith)

-- Some rounds lead from one token and input to another.
pub record Skips (stop token input token' input' : Bytes) : Type 0 where
  pub rounds : ℕ
  pub skips :
      (f : ℕ) → skip_to (more_rounds rounds f) stop token input ≡ skip_to f stop token' input'

Skips-refl : {stop t i : Bytes} → Skips stop t i t i
Skips-refl = record { rounds = 0; skips = λ f. refl }

pub Skips-trans :
    {stop t i t' i' u j : Bytes} → Skips stop t i t' i' → Skips stop t' i' u j → Skips stop t i u j
Skips-trans {stop} {t} {i} a b = record {
  rounds = more_rounds a.rounds b.rounds;
  skips = λ f.
      rw (more_rounds_assoc a.rounds b.rounds f) (a.skips (more_rounds b.rounds f) ∙ b.skips f);
}

pub Skips-next :
    (stop t i : Bytes) → equal t stop ≡ false → Skips stop t i (get_token i).0 (get_token i).1
unfolding skip_to
Skips-next stop t i h = record { rounds = 1; skips = λ f. rw (h, skip_to) refl }

-- The tokens of a statement, from the first to the semicolon.
pub Skips-tokens :
    (stop t : Bytes) (ts : List Bytes) (rest : Bytes)
    → All (λ u. IsToken u × (equal u stop ≡ false)) (t ∷ ts)
    → let text = join (t ∷ ts) ++ b';' ∷ rest in
      Skips stop (get_token text).0 (get_token text).1 (codes ";") rest
unfolding join
Skips-tokens stop t [] rest ((h, n), _) =
    rw (get_token-IsToken t rest b';' h (unfold ends_token in refl))
      (rw (get_token-end rest) at (Skips-next stop t (b';' ∷ rest) n))
Skips-tokens stop t (u ∷ ts) rest ((h, n), hs) =
    let text = join (u ∷ ts) ++ b';' ∷ rest in
    rw (append_assoc, get_token-IsToken t text b' ' h (unfold ends_token in refl))
      (Skips-trans (Skips-next stop t (b' ' ∷ text) n)
        (rw (get_token-space text) (Skips-tokens stop u ts rest hs)))

-- The statements of a block without blocks in it.
abbrev pub AllSimple : Config → Type 0
AllSimple nil = Unit
AllSimple (cons (simple ts) c) = AreTokens ts × AllSimple c
AllSimple (cons (block ts d) c) = ⊥

tokens-ne-close :
    (ts : List Bytes) → All IsToken ts → All (λ u. IsToken u × (equal u (codes "}") ≡ false)) ts
tokens-ne-close [] h = tt
tokens-ne-close (t ∷ ts) (h, hs) = ((h, (IsToken-ne t h).0), tokens-ne-close ts hs)

-- To the end of the block.
pub Skips-body :
    (c : Config) (rest : Bytes)
    → AllSimple c
    → let text = config_to_string 1 c ++ b'}' ∷ rest in
      Skips (codes "}") (get_token text).0 (get_token text).1 (codes "}") rest
unfolding config_to_string statement_to_string
Skips-body nil rest h = rw (get_token-close rest) Skips-refl
Skips-body (cons (block ts d) c) rest h = absurd h
Skips-body (cons (simple []) c) rest ((ne, _), hs) = absurd (ne refl)
Skips-body (cons (simple (t ∷ ts)) c) rest ((ne, h), hs) =
    let later = config_to_string 1 c ++ b'}' ∷ rest in
    rw
      (
        append_assoc,
        append_assoc,
        append_assoc,
        get_token-indent 1 (join (t ∷ ts) ++ b';' ∷ b'\n' ∷ later),
      )
      (Skips-trans (Skips-tokens (codes "}") t ts (b'\n' ∷ later) (tokens-ne-close (t ∷ ts) h)) (
        Skips-trans (Skips-next (codes "}") (codes ";") (b'\n' ∷ later) (unfold equal in refl))
          (rw (get_token-newline later) (Skips-body c rest hs))))
