-- ===== src/Tests/Ports.antt =====
-- The theorems on the port of the configuration file at concrete inputs.
use cs130capstoneproject.Base.{◌≡◌, ◌<◌, refl, ◌∷◌, ◌++◌, arith, inl, some, true, []}
use cs130capstoneproject.Base.Bytes.{codes, equal}
use cs130capstoneproject.Config.Lexer.{ends_token, get_token, token_from, step_token}
use cs130capstoneproject.Config.Syntax.{nil}
use cs130capstoneproject.Port.Blocks.{is_listed, set_config_blocks, endless}
use cs130capstoneproject.Port.Endless.{set_config_blocks-endless}
use cs130capstoneproject.Port.Paths.{check_file_path, path_queue, push_to, set_paths}
use cs130capstoneproject.Http.Decimal.{to_string}
use cs130capstoneproject.Port.Number.{set_port, check_port_num}
use cs130capstoneproject.Port.Search.{check_port_num-reads, check_port_num-valid}

check_port_num-reads_example :
    check_port_num (codes "port" ++ b' ' ∷ (to_string 8080 ++ b';' ∷ codes "\nlocation"))
    ≡ set_port 8080
unfolding ends_token
check_port_num-reads_example =
    check_port_num-reads 8080 b';' (codes "\nlocation") (omega arith) (omega arith) refl

check_port_num-valid_example : (0 < 8080) × (8080 < 65536)
check_port_num-valid_example =
    check_port_num-valid (codes "port" ++ b' ' ∷ (to_string 8080 ++ b';' ∷ codes "\nlocation")) 8080
      check_port_num-reads_example

set_config_blocks-endless_example :
    set_config_blocks 100 nil (codes "location / EchoHandler {\n") ≡ endless
unfolding ends_token is_listed equal
set_config_blocks-endless_example =
    set_config_blocks-endless 100 nil (codes "/") (codes "EchoHandler") (codes "{\n") b' '
      (inl (refl, tt)) (inl (ground arith)) refl refl (ground arith)

two_locations :
    check_file_path 30 (codes "location /a { root /www; } location /b { root /srv; }") []
    ≡ some (true, codes "/a" ∷ codes "/www" ∷ codes "/b" ∷ codes "/srv" ∷ [])
unfolding check_file_path path_queue push_to set_paths equal get_token token_from step_token
two_locations = refl
