-- ===== src/Server/Files.antt =====
-- What a server answers to a request for a file in the root of a static location.
use cs130capstoneproject.Base.{
  ℕ, ◌<◌, length, ◌≡◌, refl, ap, ◌∙◌, ◌⊎◌, true, false, some, List, [], ◌∷◌, ◌++◌, ◌==◌, All,
}
use cs130capstoneproject.Base.Bytes.{Bytes, codes}
use cs130capstoneproject.Base.Map.{lookup}
use cs130capstoneproject.RequestParser.Request.{get, post, Request}
use cs130capstoneproject.RequestParser.State.{fresh}
use cs130capstoneproject.RequestParser.Print.{Message, print, IsWellFormed}
use cs130capstoneproject.RequestParser.RoundTrip.Whole.{message_request}
use cs130capstoneproject.Http.Response.{Response}
use cs130capstoneproject.Handlers.Log.{Log, add_record}
use cs130capstoneproject.Dispatcher.{status_line, dispatch}
use cs130capstoneproject.Port.Blocks.{ConfigBlock}
use cs130capstoneproject.Static.Types.{config_parser}
use cs130capstoneproject.Static.Paths.{replace_path}
use cs130capstoneproject.Static.Roots.{SameRoots}
use cs130capstoneproject.Static.Locations.{quoted}
use cs130capstoneproject.Static.Files.{FileSystem, file, local_path}
use cs130capstoneproject.Session.Routing.{route}
use cs130capstoneproject.Session.Tasks
use cs130capstoneproject.Session.Answers.{answered, good_request-handled}
use cs130capstoneproject.Server.Handlers.{Handler, static_file_handler, Registry, construct}
use cs130capstoneproject.Server.Roots.{LacksLocation, static_site, construct-root, construct-site}
use cs130capstoneproject.Static.Names.{HasType, config_parser_iff}
use cs130capstoneproject.Static.Kinds.{Kind, type_of, IsSentAs, file_response-IsSentAs}
use cs130capstoneproject.RequestParser.Numbers.{u64_mod}
use cs130capstoneproject.Http.Status
use cs130capstoneproject.Static.Sent.{file_response, replace_path-file, handle_request-file}
use cs130capstoneproject.Server.Serve.{Surroundings, Shared, counted, serve}

-- A file in a directory that begins with a slash.
abbrev pub path_in : Bytes → Bytes → Bytes
path_in directory name = (b'/' ∷ directory) ++ b'/' ∷ name

module _ (trim trim_quotes : Bytes → Bytes) (surroundings : ℕ → Surroundings) where
  abbrev pub files_at : Shared → FileSystem
  files_at s = (surroundings s.requests).files

  -- The static handler, for a name in a location.
  pub serve-file :
      (before behind : List ConfigBlock) (location directory name content : Bytes) (r r' : Registry)
      (req : Request) (log : Log) (s : Shared) (res : Response)
      → construct trim_quotes (before ++ static_site location directory ∷ behind) r ≡ some r'
      → LacksLocation location behind
      → SameRoots s.roots r'.roots
      → (req.method ≡ get) ⊎ (req.method ≡ post)
      → req.uri ≡ location ++ b'/' ∷ name
      → All (λ b. (b == b'/') ≡ false) name
      → (files_at s).entry (local_path (files_at s) (path_in directory name)) ≡ file content
      → file_response (config_parser req.uri) content ≡ some res
      → serve trim surroundings static_file_handler req (log, s)
        ≡ some (
          res,
          add_record (path_in directory name) (codes "StaticHandler") res.code log,
          counted s,
        )
  unfolding serve
  serve-file before behind location directory name content r r' req log s res built last roots
        method uri plain there sent =
      let root =
        roots location
        ∙ construct-root trim_quotes before behind location directory r r' built last in
      let found_path =
        ap (λ u. replace_path u s.roots) uri
        ∙ replace_path-file location name directory b'/' s.roots plain root in
      rw
        (handle_request-file (files_at s) req s.roots log b'/' (directory ++ b'/' ∷ name) content
          res method found_path there sent)
        refl

  module _ (accepts : ℕ → ℕ → ℕ) where
    abbrev World : Type 0
    World = Tasks.World Handler Shared (serve trim surroundings) accepts

    -- A file of the location, as the handler of static files sends it.
    good_request-sent :
        (before behind : List ConfigBlock) (location directory name content : Bytes)
        (r r' : Registry) (w : World) (n : ℕ) (m : Message) (res : Response)
        → construct trim_quotes (before ++ static_site location directory ∷ behind) r ≡ some r'
        → LacksLocation location behind
        → w.handlers ≡ r'.handlers
        → SameRoots w.shared.1.roots r'.roots
        → w.parser ≡ fresh n
        → IsWellFormed m
        → ((message_request m).method ≡ get) ⊎ ((message_request m).method ≡ post)
        → m.uri ≡ location ++ b'/' ∷ name
        → All (λ b. (b == b'/') ≡ false) name
        → route w.handlers m.uri ≡ some (true, quoted location)
        → (files_at w.shared.1).entry (local_path (files_at w.shared.1) (path_in directory name))
          ≡ file content
        → file_response (config_parser m.uri) content ≡ some res
        → (n' : ℕ) × (Tasks.good_request Handler Shared
              (serve trim surroundings)
              accepts
              (print m [])
              w
            ≡ some (
              status_line res.code,
              dispatch accepts res,
              answered Handler Shared (serve trim surroundings) accepts w (fresh n') (
                add_record (path_in directory name) (codes "StaticHandler") res.code w.shared.0,
                counted w.shared.1,
              ),
            ))
    good_request-sent before behind location directory name content r r' w n m res built last same
          roots parser wf method uri plain found there sent =
        good_request-handled Handler Shared (serve trim surroundings) accepts w n m
          (quoted location) static_file_handler res
          (add_record (path_in directory name) (codes "StaticHandler") res.code w.shared.0)
          (counted w.shared.1) parser wf found
          (ap (lookup (quoted location)) same
            ∙ construct-site trim_quotes before behind location directory r r' built last)
          (serve-file before behind location directory name content r r' (message_request m)
            w.shared.0 w.shared.1 res built last roots method uri plain there sent)

    -- A server whose constructor has ended, with a static location whose block is `root "DIR";` for a
    -- directory that begins with a slash, and behind which no block has this location; the handlers have
    -- changed no root since. A well-formed GET or POST request, which a session with a new parser has
    -- read in full, for a name without a slash in the location, whose URI is routed to the location: if
    -- the URI is one of a text, an image or another type that is sent as bytes, and a file of less than
    -- 2^64 bytes is in the directory, then a response of the code 200 is dispatched, with the medium of
    -- the type and the length of its body, and the status line is returned. The body is the file, or for
    -- a text its lines one behind the other without their ends. Afterwards the log has one record more,
    -- the roots are the same, and the session is as before.
    pub good_request-file :
        (before behind : List ConfigBlock) (location directory name content : Bytes)
        (r r' : Registry) (w : World) (n : ℕ) (m : Message) (kind : Kind)
        → construct trim_quotes (before ++ static_site location directory ∷ behind) r ≡ some r'
        → LacksLocation location behind
        → w.handlers ≡ r'.handlers
        → SameRoots w.shared.1.roots r'.roots
        → w.parser ≡ fresh n
        → IsWellFormed m
        → ((message_request m).method ≡ get) ⊎ ((message_request m).method ≡ post)
        → m.uri ≡ location ++ b'/' ∷ name
        → All (λ b. (b == b'/') ≡ false) name
        → route w.handlers m.uri ≡ some (true, quoted location)
        → (files_at w.shared.1).entry (local_path (files_at w.shared.1) (path_in directory name))
          ≡ file content
        → HasType m.uri (type_of kind)
        → length content < u64_mod
        → (res : Response) × (n' : ℕ) × IsSentAs kind content res
          × (Tasks.good_request Handler Shared (serve trim surroundings) accepts (print m []) w
              ≡ some (
                codes "HTTP/1.1 200 OK\r\n",
                dispatch accepts res,
                answered Handler Shared (serve trim surroundings) accepts w (fresh n') (
                  add_record (path_in directory name) (codes "StaticHandler") Status.ok w.shared.0,
                  counted w.shared.1,
                ),
              ))
    unfolding status_line
    good_request-file before behind location directory name content r r' w n m kind built last same
          roots parser wf method uri plain found there typed short =
        let (res, sent, is) = file_response-IsSentAs kind content short in
        let (n', answers) =
          good_request-sent before behind location directory name content r r' w n m res built last
            same roots parser wf method uri plain found there
            (ap (λ t. file_response t content) ((config_parser_iff m.uri (type_of kind)).1 typed)
              ∙ sent) in
        (
          res,
          n',
          is,
          answers
              ∙ ap
                  (λ c. some (
                    status_line c,
                    dispatch accepts res,
                    answered Handler Shared (serve trim surroundings) accepts w (fresh n') (
                      add_record (path_in directory name) (codes "StaticHandler") c w.shared.0,
                      counted w.shared.1,
                    ),
                  ))
                  is.ok,
        )
