-- ===== src/Server/Answers.antt =====
-- What a server answers, from its configuration to what it asks the socket to write.
use cs130capstoneproject.Base.{ℕ, ◌≡◌, refl, sym, ◌∙◌, ap, true, some, List, [], ◌∷◌, ◌++◌}
use mathlib.Core.Option.{some_inj}
use cs130capstoneproject.Base.Bytes.{Bytes, equal}
use cs130capstoneproject.Base.Map.{Map}
use cs130capstoneproject.RequestParser.Request.{Request}
use cs130capstoneproject.RequestParser.State.{fresh}
use cs130capstoneproject.RequestParser.Print.{Message, print, IsWellFormed}
use cs130capstoneproject.RequestParser.RoundTrip.Whole.{message_request}
use cs130capstoneproject.Http.Response.{Response}
use cs130capstoneproject.Handlers.Log.{Log}
use cs130capstoneproject.Dispatcher.{status_line, dispatch}
use cs130capstoneproject.Port.Blocks.{ConfigBlock}
use cs130capstoneproject.Session.Routing.{route}
use cs130capstoneproject.Session.Tasks
use cs130capstoneproject.Session.Answers.{answered, good_request-handled}
use cs130capstoneproject.Server.Handlers.{
  echo_handler, status_handler, error_handler, health_handler, Handler, Registry, create_handler,
  construct,
}
use cs130capstoneproject.Server.Laws.{Lacks, construct-last}
use cs130capstoneproject.Server.Promises.{
  Service, echo_service, status_service, error_service, health_service, service_name, Promises,
  answer_of, answer_of-Promises,
}
use cs130capstoneproject.Server.Serve.{Surroundings, Shared, counted, serve}

-- The handler that is made for a service.
abbrev handler_of : Service → Handler
handler_of echo_service = echo_handler
handler_of status_service = status_handler
handler_of error_service = error_handler
handler_of health_service = health_handler

module _ (trim trim_quotes : Bytes → Bytes) (surroundings : ℕ → Surroundings)
    (accepts : ℕ → ℕ → ℕ) where
  create_handler-handler_of :
      (path : Bytes) (b : ConfigBlock) (roots : Map Bytes) (k : Service)
      → b.handler_type ≡ service_name k
      → create_handler trim_quotes path b roots ≡ some (handler_of k, roots)
  unfolding create_handler equal
  create_handler-handler_of path b roots echo_service t = rw t refl
  create_handler-handler_of path b roots status_service t = rw t refl
  create_handler-handler_of path b roots error_service t = rw t refl
  create_handler-handler_of path b roots health_service t = rw t refl

  serve-answer_of :
      (path : Bytes) (b : ConfigBlock) (roots roots' : Map Bytes) (h : Handler) (k : Service)
      (req : Request) (log : Log) (s : Shared)
      → create_handler trim_quotes path b roots ≡ some (h, roots')
      → b.handler_type ≡ service_name k
      → serve trim surroundings h req (log, s)
        ≡ some ((answer_of k req log).0, (answer_of k req log).1, counted s)
  unfolding serve
  serve-answer_of path b roots roots' h k req log s e t =
      rw (ap (λ x. x.0) (some_inj.0 (sym e ∙ create_handler-handler_of path b roots k t)))
        (serves k)
    where
      serves :
          (k : Service)
          → serve trim surroundings (handler_of k) req (log, s)
            ≡ some ((answer_of k req log).0, (answer_of k req log).1, counted s)
      serves echo_service = refl
      serves status_service = refl
      serves error_service = refl
      serves health_service = refl

  abbrev World : Type 0
  World = Tasks.World Handler Shared (serve trim surroundings) accepts

  -- A server whose constructor has ended, with a block for an echo, status, error or health handler that
  -- is the last with its prefix: a well-formed request that a session with a new parser has read in full,
  -- and whose URI is routed to that prefix, is answered as this service promises. The response is plain
  -- text with its length and the code 200, or 404 of an error handler: what stands behind the last slash
  -- of the URI, the number of requests and the records of all, or a fixed text. It is dispatched and its
  -- status line returned; afterwards the log has one record more, with the URI, the name of the handler
  -- and the code, and the session is as before a request.
  pub good_request-promised :
      (before : List ConfigBlock) (b : ConfigBlock) (behind : List ConfigBlock) (r r' : Registry)
      (w : World) (n : ℕ) (m : Message) (k : Service)
      → construct trim_quotes (before ++ b ∷ behind) r ≡ some r'
      → Lacks b.prefix behind
      → w.handlers ≡ r'.handlers
      → w.parser ≡ fresh n
      → IsWellFormed m
      → route w.handlers m.uri ≡ some (true, b.prefix)
      → b.handler_type ≡ service_name k
      → (res : Response) × (log : Log) × (n' : ℕ) × Promises k m.uri w.shared.0 res log
        × (Tasks.good_request Handler Shared (serve trim surroundings) accepts (print m []) w
            ≡ some (
              status_line res.code,
              dispatch accepts res,
              answered Handler Shared
                  (serve trim surroundings)
                  accepts
                  w
                  (fresh n')
                  (log, counted w.shared.1),
            ))
  good_request-promised before b behind r r' w n m k built last same parser wf found named =
      let (h, roots, roots', made, there) =
        construct-last trim_quotes before b behind r r' built last in
      let (res, log) = answer_of k (message_request m) w.shared.0 in
      let (n', answers) =
        good_request-handled Handler Shared (serve trim surroundings) accepts w n m b.prefix h res
          log (counted w.shared.1) parser wf found (rw same there)
          (serve-answer_of b.prefix b roots roots' h k (message_request m) w.shared.0 w.shared.1
            made named) in
      (res, log, n', answer_of-Promises k (message_request m) w.shared.0, answers)
