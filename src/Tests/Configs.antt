-- ===== src/Tests/Configs.antt =====
-- The theorems on configuration files at concrete inputs.
use cs130capstoneproject.Base.{◌≡◌, refl, inl, inr, true, Bool, [], ◌∷◌, ◌++◌, arith}
use cs130capstoneproject.Base.Bytes.{codes}
use cs130capstoneproject.Config.Syntax.{simple, block, Config, nil, cons, config_to_string}
use cs130capstoneproject.Config.Lexer.{start, ends_token}
use cs130capstoneproject.Config.Lexing.{IsPlain}
use cs130capstoneproject.Config.Parser.{State, returned, parse}
use cs130capstoneproject.Config.Safety.{parse-returns}
use cs130capstoneproject.Config.Tree.{extend}
use cs130capstoneproject.Config.RoundTrip.Printable.{
  IsPrintable, no_more, more, is_simple, is_block, blocks_of,
}
use cs130capstoneproject.Config.RoundTrip.Statements.{last_after}
use cs130capstoneproject.Config.RoundTrip.Whole.{parse-config_to_string}

-- A server block with a port and a location.
abbrev server_config : Config
server_config =
    cons
      (block (codes "server" ∷ []) (
        cons (simple (codes "port" ∷ codes "80" ∷ []))
          (cons (block (codes "location" ∷ codes "\"/echo\"" ∷ codes "EchoHandler" ∷ []) nil) nil)))
      nil

port-IsPlain : IsPlain (codes "port")
unfolding ends_token
port-IsPlain = ground arith

server_config-IsPrintable : IsPrintable server_config
unfolding ends_token
server_config-IsPrintable =
    more
      (is_block ((λ e. cc), (inl (ground arith), tt))
        (more (is_simple ((λ e. cc), (inl port-IsPlain, (inl (ground arith), tt)))) (
          more
            (is_block
              (
                (λ e. cc),
                (
                  inl (ground arith),
                  (inr (inl (codes "/echo", refl, ground arith)), (inl (ground arith), tt)),
                ),
              )
              no_more)
            no_more)))
      no_more

parse-config_to_string_example :
    parse nil [] (config_to_string 1 server_config)
    ≡ returned true (record {
      braces = 0;
      top = extend nil server_config;
      below = [];
      last = last_after start server_config;
      blocks = [] ++ blocks_of server_config;
    })
parse-config_to_string_example =
    parse-config_to_string nil server_config [] 1 server_config-IsPrintable

parse-returns_example :
    (b : Bool) × (s : State) × (parse nil [] (codes "server { port 80; ") ≡ returned b s)
parse-returns_example = parse-returns nil [] (codes "server { port 80; ")
