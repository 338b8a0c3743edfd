-- ===== src/Config/RoundTrip/Configs.antt =====
-- The rounds over the text of a configuration, by recursion on its blocks.
use mathlib.Core.Path.{subst}
use cs130capstoneproject.Base.{
  ℕ, suc, ◌≡◌, refl, sym, true, List, [], ◌∷◌, ◌++◌, append-nil, append_assoc,
}
use cs130capstoneproject.Base.Bytes.{Bytes}
use cs130capstoneproject.Config.Syntax.{
  Statement, simple, block, Config, nil, cons, join, indent, config_to_string, statement_to_string,
}
use cs130capstoneproject.Config.Lexer.{
  start_block, end_block, statement_end, ends_token, parse_token, token_from, step_token,
}
use cs130capstoneproject.Config.Parser.{State, begins_statement}
use cs130capstoneproject.Config.Tree.{extend}
use cs130capstoneproject.Config.Lexing.{parse_token-newline, parse_token-indent}
use cs130capstoneproject.Config.RoundTrip.Printable.{
  IsPrintable, no_more, more, PrintsBack, is_simple, is_block, blocks_of,
}
use cs130capstoneproject.Config.RoundTrip.Rounds.{
  Goes, Goes-refl, Goes-trans, Goes-skip, Goes-token,
}
use cs130capstoneproject.Config.RoundTrip.Statements.{
  tok, after_statement, after_config, opened, Goes-tokens, step-semicolon, step-open, step-close,
}

parse_semicolon : (rest : Bytes) → parse_token (b';' ∷ rest) ≡ tok statement_end (b';' ∷ []) rest
unfolding parse_token token_from step_token
parse_semicolon rest = refl

parse_open : (rest : Bytes) → parse_token (b' ' ∷ b'{' ∷ rest) ≡ tok start_block (b'{' ∷ []) rest
unfolding parse_token token_from step_token
parse_open rest = refl

parse_close :
    (d : ℕ) (rest : Bytes)
    → parse_token (indent d ++ (b'}' ∷ rest)) ≡ tok end_block (b'}' ∷ []) rest
unfolding parse_token token_from step_token
parse_close d rest = parse_token-indent d (b'}' ∷ rest)

text_simple :
    (d : ℕ) (ts : List Bytes) (rest : Bytes)
    → statement_to_string d (simple ts) ++ rest ≡ indent d ++ (join ts ++ (b';' ∷ b'\n' ∷ rest))
unfolding statement_to_string
text_simple d ts rest = simp append_assoc

text_block :
    (d : ℕ) (ts : List Bytes) (c : Config) (rest : Bytes)
    → statement_to_string d (block ts c) ++ rest
      ≡ indent d
        ++ (join ts
            ++ (b' '
                ∷ b'{'
                ∷ b'\n'
                ∷ (config_to_string (suc d) c ++ (indent d ++ (b'}' ∷ b'\n' ∷ rest)))))
unfolding statement_to_string
text_block d ts c rest = simp append_assoc

text_nil : (d : ℕ) (rest : Bytes) → config_to_string d nil ++ rest ≡ rest
unfolding config_to_string
text_nil d rest = refl

text_cons :
    (d : ℕ) (s : Statement) (c : Config) (rest : Bytes)
    → config_to_string d (cons s c) ++ rest
      ≡ statement_to_string d s ++ (config_to_string d c ++ rest)
unfolding config_to_string
text_cons d s c rest = simp append_assoc

begins-after_statement :
    (s : State) (x : Statement) → begins_statement (after_statement s x).last ≡ true
begins-after_statement s (simple ts) = refl
begins-after_statement s (block ts c) = refl

after_config-cons :
    (s : State) (x : Statement) (c : Config)
    → after_config (after_statement s x) c ≡ after_config s (cons x c)
unfolding blocks_of extend
after_config-cons s x c = rw append_assoc

after_config-nil : (s : State) → after_config s nil ≡ s
unfolding blocks_of extend
after_config-nil s = rw append-nil

mutual
  unfolding ends_token

  Goes-statement :
      {x : Statement} (s : State) (d : ℕ) (rest : Bytes)
      → PrintsBack x
      → begins_statement s.last ≡ true
      → Goes s (statement_to_string d x ++ rest) (after_statement s x) rest
  Goes-statement s d rest (is_simple {ts} h) b = rw text_simple (
      Goes-trans (Goes-skip (parse_token-indent d _)) (
        Goes-trans (Goes-tokens ts s (b'\n' ∷ rest) b';' b h refl) (
          Goes-trans
            (Goes-token (tok statement_end (b';' ∷ []) (b'\n' ∷ rest)) (parse_semicolon _)
              (step-semicolon s ts _))
            (Goes-skip (parse_token-newline rest)))))
  Goes-statement s d rest (is_block {ts} {c} h k) b =
      let close = indent d ++ (b'}' ∷ b'\n' ∷ rest) in
      let inside = config_to_string (suc d) c ++ close in
      rw text_block (
        Goes-trans (Goes-skip (parse_token-indent d _)) (
          Goes-trans (Goes-tokens ts s (b'{' ∷ b'\n' ∷ inside) b' ' b h refl) (
            Goes-trans
              (Goes-token (tok start_block (b'{' ∷ []) (b'\n' ∷ inside)) (parse_open _)
                (step-open s ts _))
              (Goes-trans (Goes-skip (parse_token-newline inside)) (
                Goes-trans (Goes-config (opened s ts) (suc d) close k refl) (
                  Goes-trans
                    (Goes-token (tok end_block (b'}' ∷ []) (b'\n' ∷ rest)) (parse_close d _)
                      (step-close s ts c _))
                    (Goes-skip (parse_token-newline rest))))))))

  Goes-config :
      {c : Config} (s : State) (d : ℕ) (rest : Bytes)
      → IsPrintable c
      → begins_statement s.last ≡ true
      → Goes s (config_to_string d c ++ rest) (after_config s c) rest
  Goes-config s d rest no_more b =
      rw text_nil (subst (λ u. Goes s rest u rest) (sym (after_config-nil s)) (Goes-refl s rest))
  Goes-config s d rest (more {s = x} {c} h k) b = rw text_cons (
      subst (λ u. Goes s (statement_to_string d x ++ (config_to_string d c ++ rest)) u rest)
        (after_config-cons s x c)
        (Goes-trans (Goes-statement s d (config_to_string d c ++ rest) h b)
          (Goes-config (after_statement s x) d rest k (begins-after_statement s x))))

-- Outside the block: the text of a configuration is read as its statements.
pub Goes-config_to_string :
    {c : Config} (s : State) (d : ℕ) (rest : Bytes)
    → IsPrintable c
    → begins_statement s.last ≡ true
    → Goes s (config_to_string d c ++ rest) (after_config s c) rest
Goes-config_to_string s d rest h b = Goes-config s d rest h b
