-- ===== src/Config/RoundTrip/Statements.antt =====
-- The rounds over the text of a statement.
use cs130capstoneproject.Base.{
  ℕ, ◌+◌, ◌≡◌, refl, true, List, [], ◌∷◌, ◌++◌, append-nil, append_assoc, arith,
}
use cs130capstoneproject.Base.Bytes.{Bytes}
use cs130capstoneproject.Config.Syntax.{Statement, simple, block, Config, nil, cons, join}
use cs130capstoneproject.Config.Lexer.{
  TokenType, normal, start_block, end_block, statement_end, Token, ends_token,
}
use cs130capstoneproject.Config.Parser.{
  append, push_token, set_child, State, next, step, step_type, begins_statement, may_end_block,
}
use cs130capstoneproject.Config.Tree.{extend, extend-nil, update_last-append}
use cs130capstoneproject.Config.Lexing.{
  IsToken, parse_token-IsToken, track_braces-IsToken, parse_token-space,
}
use cs130capstoneproject.Config.RoundTrip.Printable.{AreTokens, blocks_of, blocks_in}
use cs130capstoneproject.Config.RoundTrip.Rounds.{Goes, Goes-trans, Goes-skip, Goes-token}

abbrev pub tok : TokenType → Bytes → Bytes → Token
tok t v r = record { type = t; value = v; rest = r }

-- In the middle of a statement.
abbrev pub in_statement : State → List Bytes → State
in_statement s ts = record s { top = append s.top (simple ts); last = normal }

step-first :
    (s : State) (t rest : Bytes)
    → begins_statement s.last ≡ true
    → IsToken t
    → step s (tok normal t rest) ≡ next (in_statement s (t ∷ []))
unfolding step step_type
step-first s t rest b h =
    ground (
      arith,
      track_braces-IsToken t s.braces h,
      update_last-append (push_token t) s.top (simple []),
    )

step-more :
    (s : State) (ts : List Bytes) (t rest : Bytes)
    → IsToken t
    → step (in_statement s ts) (tok normal t rest) ≡ next (in_statement s (ts ++ t ∷ []))
unfolding step step_type
step-more s ts t rest h =
    ground (
      arith,
      track_braces-IsToken t s.braces h,
      update_last-append (push_token t) s.top (simple ts),
    )

-- The tokens behind the first.
Goes-more :
    (ts : List Bytes) (s : State) (us : List Bytes) (rest : Bytes) (d : ℕ)
    → AreTokens ts
    → ends_token d ≡ true
    → Goes (in_statement s us) (join ts ++ d ∷ rest) (in_statement s (us ++ ts)) (d ∷ rest)
unfolding join
Goes-more [] s us rest d h e = absurd (h.0 refl)
Goes-more (t ∷ []) s us rest d (_, (h, _)) e =
    Goes-token (tok normal t (d ∷ rest)) (parse_token-IsToken t rest d h e)
      (step-more s us t (d ∷ rest) h)
Goes-more (t ∷ u ∷ ts) s us rest d (_, (h, hs)) e =
    let after = join (u ∷ ts) ++ d ∷ rest in
    rw append_assoc (
      Goes-trans
        (Goes-token (tok normal t (b' ' ∷ after))
          (parse_token-IsToken t after b' ' h (unfold ends_token in refl))
          (step-more s us t (b' ' ∷ after) h))
        (Goes-trans (Goes-skip (parse_token-space after))
          (rw append_assoc at (Goes-more (u ∷ ts) s (us ++ t ∷ []) rest d ((λ x. cc), hs) e))))

-- The tokens of a statement.
pub Goes-tokens :
    (ts : List Bytes) (s : State) (rest : Bytes) (d : ℕ)
    → begins_statement s.last ≡ true
    → AreTokens ts
    → ends_token d ≡ true
    → Goes s (join ts ++ d ∷ rest) (in_statement s ts) (d ∷ rest)
unfolding join
Goes-tokens [] s rest d b h e = absurd (h.0 refl)
Goes-tokens (t ∷ []) s rest d b (_, (h, _)) e =
    Goes-token (tok normal t (d ∷ rest)) (parse_token-IsToken t rest d h e)
      (step-first s t (d ∷ rest) b h)
Goes-tokens (t ∷ u ∷ ts) s rest d b (_, (h, hs)) e =
    let after = join (u ∷ ts) ++ d ∷ rest in
    rw append_assoc (
      Goes-trans
        (Goes-token (tok normal t (b' ' ∷ after))
          (parse_token-IsToken t after b' ' h (unfold ends_token in refl))
          (step-first s t (b' ' ∷ after) b h))
        (Goes-trans (Goes-skip (parse_token-space after))
          (Goes-more (u ∷ ts) s (t ∷ []) rest d ((λ x. cc), hs) e)))

-- After a statement.
abbrev pub kind_of : Statement → TokenType
kind_of (simple ts) = statement_end
kind_of (block ts c) = end_block

abbrev pub after_statement : State → Statement → State
after_statement s x = record s {
  top = append s.top x;
  last = kind_of x;
  blocks = s.blocks ++ blocks_in x;
}

-- The type of the last token after a configuration.
abbrev pub last_after : TokenType → Config → TokenType
last_after t nil = t
last_after t (cons s c) = last_after (kind_of s) c

abbrev pub after_config : State → Config → State
after_config s c = record s {
  top = extend s.top c;
  last = last_after s.last c;
  blocks = s.blocks ++ blocks_of c;
}

-- Inside a block that has just been opened.
abbrev pub opened : State → List Bytes → State
opened s ts = record s {
  braces = s.braces + 1;
  top = nil;
  below = append s.top (block ts nil) ∷ s.below;
  last = start_block;
}

pub step-semicolon :
    (s : State) (ts : List Bytes) (rest : Bytes)
    → step (in_statement s ts) (tok statement_end (b';' ∷ []) rest)
      ≡ next (after_statement s (simple ts))
unfolding step step_type blocks_in
step-semicolon s ts rest = rw append-nil

pub step-open :
    (s : State) (ts : List Bytes) (rest : Bytes)
    → step (in_statement s ts) (tok start_block (b'{' ∷ []) rest) ≡ next (opened s ts)
unfolding step step_type
step-open s ts rest = ground (arith, update_last-append (set_child nil) s.top (simple ts))

may_end_block-last_after : (c : Config) → may_end_block (last_after start_block c) ≡ true
may_end_block-last_after nil = refl
may_end_block-last_after (cons (simple ts) nil) = refl
may_end_block-last_after (cons (block ts d) nil) = refl
may_end_block-last_after (cons x (cons y c)) = may_end_block-last_after (cons y c)

pub step-close :
    (s : State) (ts : List Bytes) (c : Config) (rest : Bytes)
    → step (after_config (opened s ts) c) (tok end_block (b'}' ∷ []) rest)
      ≡ next (after_statement s (block ts c))
unfolding step step_type blocks_in
step-close s ts c rest = ground (
  arith,
  may_end_block-last_after c,
  update_last-append (set_child (extend nil c)) s.top (block ts nil),
  extend-nil c,
  append_assoc s.blocks (blocks_of c) (c ∷ []),
)
