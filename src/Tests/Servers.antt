-- ===== src/Tests/Servers.antt =====
-- The theorems on the constructor of the server at concrete inputs.
use cs130capstoneproject.Base.{
  List, ℕ, ◌+◌, inl, inr, arith, true, false, ◌≡◌, refl, some, [], ◌∷◌, ◌++◌,
}
use cs130capstoneproject.Base.Bytes.{Bytes, codes, equal, less, starts_with}
use cs130capstoneproject.Base.Map.{lookup, assign}
use cs130capstoneproject.Config.Syntax.{nil}
use cs130capstoneproject.RequestParser.Numbers.{skip_space}
use cs130capstoneproject.Port.Blocks.{ConfigBlock, is_listed}
use cs130capstoneproject.Server.Handlers.{
  Handler, static_file_handler, echo_handler, cache_handler, Registry, create_handler, construct,
}
use cs130capstoneproject.Server.Roots.{static_site}
use cs130capstoneproject.Server.Files.{good_request-file}
use cs130capstoneproject.Static.Types.{config_parser, dir, favicon, txt_html}
use cs130capstoneproject.Static.Paths.{init}
use cs130capstoneproject.Static.Kinds.{type_of, text, IsSentAs}
use cs130capstoneproject.Static.Names.{HasType, config_parser_iff}
use cs130capstoneproject.Http.Response.{Response}
use cs130capstoneproject.Static.Files.{file}
use cs130capstoneproject.Base.Regex.{regex_match, regex_search}
use cs130capstoneproject.Base.Int.{pos}
use cs130capstoneproject.Base.Bytes.{find, find_last}
use cs130capstoneproject.Config.Syntax.{config_to_string, statement_to_string, join, indent}
use cs130capstoneproject.RequestParser.Print.{Message, IsWellFormed}
use cs130capstoneproject.Http.Status
use cs130capstoneproject.Handlers.Log.{Log, add_record}
use cs130capstoneproject.Session.Answers.{answered}
use cs130capstoneproject.Tests.RequestParserRuns.{runs}
use cs130capstoneproject.Tests.Sessions.{get_message}
use cs130capstoneproject.Server.Serve.{Surroundings, Shared, counted, serve}
use cs130capstoneproject.Config.Lexer.{ends_token}
use cs130capstoneproject.Port.RoundTrip.{IsSite}
use cs130capstoneproject.Port.File.{file_text}
use cs130capstoneproject.Server.Start.{start, started, no_handlers, start-file_of}
use cs130capstoneproject.Server.Answers.{good_request-promised}
use cs130capstoneproject.Static.Files.{missing}
use cs130capstoneproject.Proxy.Transfer.{failed}
use cs130capstoneproject.RequestParser.Request.{reset_request}
use cs130capstoneproject.RequestParser.State.{fresh}
use cs130capstoneproject.RequestParser.Print.{print}
use cs130capstoneproject.Server.Promises.{echo_service, Promises}
use cs130capstoneproject.Dispatcher.{status_line, dispatch}
use cs130capstoneproject.Session.Routing.{first_key, search, route}
use cs130capstoneproject.Session.Tasks.{World, good_request}
use cs130capstoneproject.Tests.Requests.{post_message, post_message-IsWellFormed}

abbrev block : Bytes → Bytes → ConfigBlock
block prefix handler_type = record { prefix = prefix; handler_type = handler_type; content = nil }

abbrev pub echo_block : ConfigBlock
echo_block = block (codes "\"/a%20b\"") (codes "EchoHandler")

abbrev pub cache_block : ConfigBlock
cache_block = block (codes "\"/\"") (codes "CacheHandler")

abbrev two_handlers : Registry
two_handlers = record {
  handlers = (codes "\"/\"", some cache_handler) ∷ (codes "\"/a%20b\"", some echo_handler) ∷ [];
  roots = [];
}

two_handlers-constructed :
    construct skip_space ([] ++ echo_block ∷ cache_block ∷ []) no_handlers ≡ some two_handlers
unfolding construct create_handler equal assign less
two_handlers-constructed = refl

abbrev no_files : ℕ → Surroundings
no_files n = record {
  files = record { current_path = []; entry = λ path. missing };
  transfer = λ dest. failed;
  now = n;
  later = n;
}

abbrev pub all_bytes : ℕ → ℕ → ℕ
all_bytes total left = left

abbrev world : World Handler Shared (serve skip_space no_files) all_bytes
world = record {
  handlers = two_handlers.handlers;
  shared = ([], record { roots = []; pages = []; requests = 0 });
  parser = fresh 0;
  request = reset_request;
  request_start = false;
  http_body = [];
}

echo-found : route two_handlers.handlers (codes "/a%20b") ≡ some (true, codes "\"/a%20b\"")
unfolding route first_key search starts_with lookup equal
echo-found = refl

good_request-promised_example :
    (res : Response) × (log : Log) × (n' : ℕ) × Promises echo_service post_message.uri [] res log
    × (good_request Handler Shared
          (serve skip_space no_files)
          all_bytes
          (print post_message [])
          world
        ≡ some (
          status_line res.code,
          dispatch all_bytes res,
          answered Handler Shared
              (serve skip_space no_files)
              all_bytes
              world
              (fresh n')
              (log, counted world.shared.1),
        ))
unfolding equal
good_request-promised_example =
    good_request-promised skip_space skip_space no_files all_bytes [] echo_block (cache_block ∷ [])
      no_handlers two_handlers world 0 post_message echo_service two_handlers-constructed (refl, tt)
      refl refl post_message-IsWellFormed echo-found refl

echo_block-IsSite : IsSite echo_block
unfolding is_listed equal ends_token
echo_block-IsSite = (inr (inl (codes "/a%20b", refl, ground arith)), inl (ground arith), tt)

cache_block-IsSite : IsSite cache_block
unfolding is_listed equal ends_token
cache_block-IsSite = (inr (inl (codes "/", refl, ground arith)), inl (ground arith), tt)

start-file_of_example :
    (k : ℕ) × ((f : ℕ)
      → start skip_space (k + f) (file_text 8080 (echo_block ∷ cache_block ∷ []))
        ≡ started 8080 two_handlers)
start-file_of_example =
    start-file_of skip_space 8080 (echo_block ∷ cache_block ∷ []) two_handlers (omega arith)
      (omega arith) (echo_block-IsSite, (cache_block-IsSite, tt)) two_handlers-constructed

abbrev pub file_blocks : List ConfigBlock
file_blocks = echo_block ∷ static_site (codes "/static") (codes "www") ∷ cache_block ∷ []

abbrev pub file_registry : Registry
file_registry = record {
  handlers =
      (codes "\"/\"", some cache_handler)
      ∷ (codes "\"/a%20b\"", some echo_handler)
      ∷ (codes "\"/static\"", some static_file_handler)
      ∷ [];
  roots = (codes "/static", codes "/www") ∷ [];
}

pub file_blocks-constructed : construct skip_space file_blocks no_handlers ≡ some file_registry
unfolding construct create_handler equal assign less init find starts_with config_to_string
    statement_to_string join indent
file_blocks-constructed = refl

abbrev pub file_message : Message
file_message = record get_message { uri = codes "/static/a.html" }

pub file_message-IsWellFormed : IsWellFormed file_message
unfolding runs
file_message-IsWellFormed = record {
  method = ground arith;
  uri = ground arith;
  major = ground arith;
  minor = ground arith;
  headers = ground arith;
  content = refl;
}

-- The same text under every path.
abbrev pub same_files : ℕ → Surroundings
same_files n = record (no_files n) {
  files = record { current_path = codes "/srv"; entry = λ path. file (codes "a\nb") };
}

abbrev file_world : World Handler Shared (serve skip_space same_files) all_bytes
file_world = record {
  handlers = file_registry.handlers;
  shared = ([], record { roots = file_registry.roots; pages = []; requests = 0 });
  parser = fresh 0;
  request = reset_request;
  request_start = false;
  http_body = [];
}

pub file-found :
    route file_registry.handlers (codes "/static/a.html") ≡ some (true, codes "\"/static\"")
unfolding route first_key search starts_with lookup equal find_last
file-found = refl

pub file-type : config_parser (codes "/static/a.html") ≡ pos 1
unfolding config_parser regex_match regex_search dir favicon txt_html
file-type = refl

file_message-text : HasType file_message.uri (type_of text)
file_message-text = (config_parser_iff file_message.uri (type_of text)).0 file-type

good_request-file_example :
    (res : Response) × (n' : ℕ) × IsSentAs text (codes "a\nb") res
    × (good_request Handler Shared
          (serve skip_space same_files)
          all_bytes
          (print file_message [])
          file_world
        ≡ some (
          codes "HTTP/1.1 200 OK\r\n",
          dispatch all_bytes res,
          answered Handler Shared (serve skip_space same_files) all_bytes file_world (fresh n') (
            add_record (codes "/www/a.html") (codes "StaticHandler") Status.ok [],
            counted file_world.shared.1,
          ),
        ))
unfolding runs
good_request-file_example =
    good_request-file skip_space skip_space same_files all_bytes (echo_block ∷ [])
      (cache_block ∷ []) (codes "/static") (codes "www") (codes "a.html") (codes "a\nb") no_handlers
      file_registry file_world 0 file_message text file_blocks-constructed ((λ e. cc), tt) refl
      (λ k. refl) refl file_message-IsWellFormed (inl refl) refl (ground arith) file-found refl
      file_message-text (omega arith)
