-- ===== src/Server/Delivered.antt =====
-- A file that a client asks for in pieces, among the requests of other clients.
use cs130capstoneproject.Base.{
  ℕ, ◌<◌, length, ◌≡◌, ap, ◌∙◌, ◌⊎◌, Bool, true, false, Option, some, List, [], ◌∷◌, ◌++◌, ◌==◌,
  All, map,
}
use cs130capstoneproject.Base.Bytes.{Bytes, codes}
use cs130capstoneproject.Base.Map.{lookup}
use cs130capstoneproject.RequestParser.Request.{get, post, Request, reset_request}
use cs130capstoneproject.RequestParser.State.{fresh}
use cs130capstoneproject.RequestParser.Print.{Message, print, IsWellFormed}
use cs130capstoneproject.RequestParser.RoundTrip.Whole.{message_request}
use cs130capstoneproject.Http.Response.{Response}
use cs130capstoneproject.Http.Utils.{crlf}
use cs130capstoneproject.Handlers.Log.{add_record}
use cs130capstoneproject.Dispatcher.{dispatch}
use cs130capstoneproject.Port.Blocks.{ConfigBlock}
use cs130capstoneproject.Static.Types.{config_parser}
use cs130capstoneproject.Static.Roots.{SameRoots}
use cs130capstoneproject.Static.Locations.{quoted}
use cs130capstoneproject.Static.Files.{file, local_path}
use cs130capstoneproject.Static.Names.{HasType, config_parser_iff}
use cs130capstoneproject.Static.Kinds.{Kind, type_of, IsSentAs, file_response-IsSentAs}
use cs130capstoneproject.RequestParser.Numbers.{u64_mod}
use cs130capstoneproject.Http.Status
use cs130capstoneproject.Static.Sent.{file_response}
use cs130capstoneproject.Session.Routing.{route}
use cs130capstoneproject.Session.Reading.{Action, write, read_some}
use cs130capstoneproject.Session.Assembly
use cs130capstoneproject.Server.Handlers.{Handler, static_file_handler, Registry, construct}
use cs130capstoneproject.Server.Roots.{LacksLocation, static_site, construct-site}
use cs130capstoneproject.Server.Serve.{Surroundings, Shared, counted, serve}
use cs130capstoneproject.Server.Files.{path_in, files_at, serve-file}
use cs130capstoneproject.Server.Sessions
use cs130capstoneproject.Server.Sessions.State.{Session, Event, was_read, was_written}
use cs130capstoneproject.Server.Sessions.Interleaved
use cs130capstoneproject.Server.Sessions.Interleaved.{ready, Interleaved, IsPiece}
use cs130capstoneproject.Server.Sessions.Served.{with_answer, run-handled}

module _ (trim trim_quotes : Bytes → Bytes) (surroundings : ℕ → Surroundings) (accepts : ℕ → ℕ → ℕ)
    (regex_match : Bytes → Bytes → Bool) where
  abbrev Server : Type 0
  Server = Sessions.Server Handler Shared (serve trim surroundings) accepts regex_match

  abbrev step : Event → Server → Option (List Action × Server)
  step = Sessions.step Handler Shared (serve trim surroundings) accepts regex_match

  abbrev session_at : ℕ → Server → Option Session
  session_at = Interleaved.session_at Handler Shared (serve trim surroundings) accepts regex_match

  -- The pieces of a request: a request line of a known method and texts that are headers, each without
  -- a null and shorter than the array of a session, whose text ends with the empty line.
  pub record IsSent (m : Message) (s : Bytes) (ss : List Bytes) : Type 0 where
    pub well_formed : IsWellFormed m
    pub pieces : All IsPiece ((s ++ crlf) ∷ ss)
    pub line : Assembly.IsRequestLine Handler Shared (serve trim surroundings) accepts regex_match s
    pub headers :
        All (Assembly.IsHeaderLine Handler Shared (serve trim surroundings) accepts regex_match) ss
    pub text :
        Assembly.text_of Handler Shared (serve trim surroundings) accepts regex_match s ss
        ≡ print m []

  -- A static location of a server, and a name in it that a request leads to, with a file.
  pub record IsFile (r : Registry) (behind : List ConfigBlock) (location directory name : Bytes)
      (content : Bytes) (t : Server) (m : Message) : Type 0 where
    pub last : LacksLocation location behind
    pub handlers : t.handlers ≡ r.handlers
    pub roots : SameRoots t.shared.1.roots r.roots
    pub method : ((message_request m).method ≡ get) ⊎ ((message_request m).method ≡ post)
    pub uri : m.uri ≡ location ++ b'/' ∷ name
    pub plain : All (λ b. (b == b'/') ≡ false) name
    pub found : route t.handlers m.uri ≡ some (true, quoted location)
    pub there :
        let fs = files_at trim trim_quotes surroundings t.shared.1 in
        fs.entry (local_path fs (path_in directory name)) ≡ file content

  -- A file of the location, as the handler of static files sends it.
  run-sent :
      (before behind : List ConfigBlock) (location directory name content : Bytes) (r r' : Registry)
      (i : ℕ) (req : Request) (s : Bytes) (ss : List Bytes) (es : List Event) (srv t : Server)
      (n : ℕ) (m : Message) (res : Response)
      → construct trim_quotes (before ++ static_site location directory ∷ behind) r ≡ some r'
      → session_at i srv ≡ some (ready req false [])
      → IsSent m s ss
      → Interleaved i ((s ++ crlf) ∷ ss) es
      → Interleaved.run Handler Shared (serve trim surroundings) accepts regex_match es srv ≡ some t
      → t.parser ≡ fresh n
      → IsFile r' behind location directory name content t m
      → file_response (config_parser m.uri) content ≡ some res
      → res.code ≡ Status.ok
      → let log =
          add_record (path_in directory name) (codes "StaticHandler") Status.ok t.shared.0 in
        let answered = with_answer Handler Shared (serve trim surroundings) accepts regex_match i in
        (n' : ℕ) × (v : Server) × (step (was_read i crlf) t
          ≡ some (map write (dispatch accepts res), answered n' (log, counted t.shared.1) t))
        × (step (was_written i) (answered n' (log, counted t.shared.1) t)
            ≡ some (read_some ∷ [], v))
        × (session_at i v ≡ some (ready reset_request false []))
  run-sent before behind location directory name content r r' i req s ss es srv t n m res built
        waits sent order goes parser f typed ok =
      run-handled Handler Shared (serve trim surroundings) accepts regex_match i req s ss es srv t n
        m (quoted location) static_file_handler res
        (add_record (path_in directory name) (codes "StaticHandler") Status.ok t.shared.0)
        (counted t.shared.1) waits order goes sent.pieces sent.line sent.headers sent.text
        sent.well_formed parser f.found
        (ap (lookup (quoted location)) f.handlers
          ∙ construct-site trim_quotes before behind location directory r r' built f.last)
        (serve-file trim trim_quotes surroundings before behind location directory name content r r'
            (message_request m) t.shared.0 t.shared.1 res built f.last f.roots f.method f.uri
            f.plain f.there typed
          ∙ ap
              (λ c. some (
                res,
                add_record (path_in directory name) (codes "StaticHandler") c t.shared.0,
                counted t.shared.1,
              ))
              ok)

  -- A server whose constructor has ended, with a static location whose block is `root "DIR";` for a
  -- directory that begins with a slash, and behind which no block has this location. A session that
  -- waits for a request reads the pieces of a well-formed GET or POST request for a name of the
  -- location, among any events of other sessions. Suppose that the server goes on, and at the end the
  -- parser is new, the handlers are those of the constructor, the roots are the same, the URI is routed
  -- to the location and is one of a text, an image or another type that is sent as bytes, and a file of
  -- less than 2^64 bytes is in the directory. Then, when the session reads the empty line, it is asked
  -- to write a response of the code 200, with the medium of the type and the length of its body, which
  -- is the file, or for a text its lines one behind the other without their ends; the log has one
  -- record more, and no other session changes. When that is written, the session waits for a request as
  -- at first.
  pub run-file :
      (before behind : List ConfigBlock) (location directory name content : Bytes) (r r' : Registry)
      (i : ℕ) (req : Request) (s : Bytes) (ss : List Bytes) (es : List Event) (srv t : Server)
      (n : ℕ) (m : Message) (kind : Kind)
      → construct trim_quotes (before ++ static_site location directory ∷ behind) r ≡ some r'
      → session_at i srv ≡ some (ready req false [])
      → IsSent m s ss
      → Interleaved i ((s ++ crlf) ∷ ss) es
      → Interleaved.run Handler Shared (serve trim surroundings) accepts regex_match es srv ≡ some t
      → t.parser ≡ fresh n
      → IsFile r' behind location directory name content t m
      → HasType m.uri (type_of kind)
      → length content < u64_mod
      → let log =
          add_record (path_in directory name) (codes "StaticHandler") Status.ok t.shared.0 in
        let answered = with_answer Handler Shared (serve trim surroundings) accepts regex_match i in
        (res : Response) × (n' : ℕ) × (v : Server) × IsSentAs kind content res
        × (step (was_read i crlf) t
            ≡ some (map write (dispatch accepts res), answered n' (log, counted t.shared.1) t))
        × (step (was_written i) (answered n' (log, counted t.shared.1) t)
            ≡ some (read_some ∷ [], v))
        × (session_at i v ≡ some (ready reset_request false []))
  run-file before behind location directory name content r r' i req s ss es srv t n m kind built
        waits sent order goes parser f typed short =
      let (res, is_response, is) = file_response-IsSentAs kind content short in
      let (n', v, reads, writes, again) =
        run-sent before behind location directory name content r r' i req s ss es srv t n m res
          built waits sent order goes parser f
          (ap (λ k. file_response k content) ((config_parser_iff m.uri (type_of kind)).1 typed)
            ∙ is_response)
          is.ok in
      (res, n', v, is, reads, writes, again)
