-- ===== src/Config/RoundTrip/Whole.antt =====
-- The round trip.
use cs130capstoneproject.Base.{
  ℕ, suc, ◌≡◌, refl, ◌∙◌, true, List, [], ◌++◌, append-nil, arith, length,
}
use cs130capstoneproject.Config.Syntax.{simple, block, Config, nil, cons, config_to_string}
use cs130capstoneproject.Config.Lexer.{start, parse_token, token_from}
use cs130capstoneproject.Config.Parser.{
  done, step, step_type, may_end_file, returned, initial, parse,
}
use cs130capstoneproject.Config.Termination.{loop-done, loop-ne-out_of_fuel, loop_fuel}
use cs130capstoneproject.Config.Tree.{extend}
use cs130capstoneproject.Config.RoundTrip.Printable.{IsPrintable, blocks_of}
use cs130capstoneproject.Config.RoundTrip.Rounds.{more_rounds}
use cs130capstoneproject.Config.RoundTrip.Statements.{last_after, after_config}
use cs130capstoneproject.Config.RoundTrip.Configs.{Goes-config_to_string}

may_end_file-last_after : (c : Config) → may_end_file (last_after start c) ≡ true
may_end_file-last_after nil = refl
may_end_file-last_after (cons (simple ts) nil) = refl
may_end_file-last_after (cons (block ts d) nil) = refl
may_end_file-last_after (cons x (cons y c)) = may_end_file-last_after (cons y c)

step-eof :
    (old c : Config) (blocks : List Config)
    → step (after_config (initial old blocks) c) (parse_token [])
      ≡ done true (after_config (initial old blocks) c)
unfolding step step_type parse_token token_from
step-eof old c blocks = ground (arith, may_end_file-last_after c)

-- The text of a configuration that can be printed is accepted, at whatever depth it is indented:
-- its statements are added to the caller's, and its child blocks, each behind those inside it, to
-- the list of blocks.
pub parse-config_to_string :
    (old c : Config) (blocks : List Config) (d : ℕ)
    → IsPrintable c
    → parse old blocks (config_to_string d c)
      ≡ returned true (record {
        braces = 0;
        top = extend old c;
        below = [];
        last = last_after start c;
        blocks = blocks ++ blocks_of c;
      })
unfolding parse
parse-config_to_string old c blocks d h =
    let text = config_to_string d c in
    let s = initial old blocks in
    let run = Goes-config_to_string s d [] h refl in
    let end = rw append-nil at (run.goes 1) in
    let accepted = end ∙ loop-done 0 (after_config s c) [] true _ (step-eof old c blocks) in
    loop_fuel (suc (length text)) (more_rounds run.rounds 1) s text
      (loop-ne-out_of_fuel _ s text (omega arith)) (λ x. cc accepted)
    ∙ accepted
