-- ===== src/Server/Promises.antt =====
-- What the services of a server promise that need no files, pages or transfers, told without their
-- handlers: the response and the record in the log.
use cs130capstoneproject.Base.{
  ℕ, zero, suc, ◌+◌, ◌≡◌, refl, ap, ◌⊎◌, inl, inr, false, none, some, List, [], ◌∷◌, ◌++◌,
  append_assoc, ◌==◌, arith, All, length, drop, take, length-append, Option-cases,
}
use cs130capstoneproject.Base.Bytes.{Bytes, codes, equal, find_last}
use cs130capstoneproject.Base.Map.{lookup, lookup-assign}
use cs130capstoneproject.RequestParser.Request.{Request}
use cs130capstoneproject.Http.Decimal.{to_string}
use cs130capstoneproject.Http.Response.{Response}
use cs130capstoneproject.Http.Utils.{plain_text_response}
use cs130capstoneproject.Handlers.Log.{
  Log, status_to_str, format_record, add_record, join_records, get_all_status, handle_status,
}
use cs130capstoneproject.Handlers.Echo.{get_echo_body, handle_echo}
use cs130capstoneproject.Handlers.Text.{handle_error, handle_health}
use cs130capstoneproject.Session.Nearest.{find_last-splits}

pub data Service : Type 0 where
  echo_service status_service error_service health_service : Service

-- The name of a service, in a configuration and in the log.
abbrev pub service_name : Service → Bytes
service_name echo_service = codes "EchoHandler"
service_name status_service = codes "StatusHandler"
service_name error_service = codes "ErrorHandler"
service_name health_service = codes "HealthHandler"

abbrev service_code : Service → ℕ
service_code error_service = 404
service_code _ = 200

-- The record of a request.
abbrev entry : Service → Bytes → Bytes
entry k uri =
    codes "URI: "
    ++ (uri
        ++ (codes "\nHandler: "
            ++ (service_name k
                ++ (codes "\nStatus Code: " ++ (to_string (service_code k) ++ codes "\n\n")))))

abbrev all_of : List Bytes → Bytes
all_of [] = []
all_of (r ∷ rs) = r ++ all_of rs

-- The body of a response: what stands behind the last slash of the URI, which is all of a URI without
-- a slash; the number of requests, this one included, and the records of all; or a fixed text.
abbrev IsPage : Service → Bytes → Log → Bytes → Type 0
IsPage echo_service uri log body =
    All (λ b. (b == b'/') ≡ false) body × ((uri ≡ body) ⊎ ((q : Bytes) × (uri ≡ q ++ b'/' ∷ body)))
IsPage status_service uri log body =
    body
    ≡ codes "Total Requests: "
      ++ (to_string (length log + 1)
          ++ (codes "\n\n" ++ all_of (log ++ entry status_service uri ∷ [])))
IsPage error_service uri log body = body ≡ codes "No Content Found! Check request format!"
IsPage health_service uri log body = body ≡ codes "OK"

-- The response to a request, and the log with its record behind the others.
pub record Promises (k : Service) (uri : Bytes) (log : Log) (res : Response) (log' : Log)
    : Type 0 where
  pub code : res.code ≡ service_code k
  pub medium : lookup (codes "Content-type") res.headers ≡ some (codes "text/plain")
  pub told : lookup (codes "Content-length") res.headers ≡ some (to_string (length res.body))
  pub closed : lookup (codes "Connection") res.headers ≡ some (codes "close")
  pub page : IsPage k uri log res.body
  pub recorded : log' ≡ log ++ entry k uri ∷ []

find_last-absent : (c : ℕ) (s : Bytes) → find_last c s ≡ none → All (λ b. (b == c) ≡ false) s
unfolding find_last
find_last-absent c [] h = tt
find_last-absent c (x ∷ s) h = elim (Option-cases (find_last c s)) [
  | inl e ↦ (ground arith, find_last-absent c s e)
  | inr (n, e) ↦ cc (rw e at h)
]

find_last-behind :
    (c n : ℕ) (s : Bytes) → find_last c s ≡ some n → All (λ b. (b == c) ≡ false) (drop (suc n) s)
unfolding find_last
find_last-behind c n [] h = cc
find_last-behind c zero (x ∷ s) h = find_last-absent c s (ground arith)
find_last-behind c (suc n) (x ∷ s) h = find_last-behind c n s (ground arith)

echo-IsPage : (uri : Bytes) (log : Log) → IsPage echo_service uri log (get_echo_body uri)
unfolding get_echo_body
echo-IsPage uri log = elim (Option-cases (find_last b'/' uri)) [
  | inl e ↦ rw e (find_last-absent b'/' uri e, inl refl)
  | inr (n, e) ↦
      rw e (find_last-behind b'/' n uri e, inr (take n uri, (find_last-splits b'/' uri n e).0))
]

join_records-all_of : (log : Log) → join_records log ≡ all_of log
unfolding join_records
join_records-all_of [] = refl
join_records-all_of (r ∷ log) = ap (λ t. r ++ t) (join_records-all_of log)

-- What the handler of a service answers.
abbrev pub answer_of : Service → Request → Log → Response × Log
answer_of echo_service = handle_echo
answer_of status_service = handle_status
answer_of error_service = handle_error
answer_of health_service = handle_health

format_record-entry :
    (k : Service) (uri : Bytes) → format_record uri (service_name k) (service_code k) ≡ entry k uri
unfolding format_record status_to_str to_string
format_record-entry echo_service uri = simp append_assoc
format_record-entry status_service uri = simp append_assoc
format_record-entry error_service uri = simp append_assoc
format_record-entry health_service uri = simp append_assoc

pub answer_of-Promises :
    (k : Service) (req : Request) (log : Log)
    → Promises k req.uri log (answer_of k req log).0 (answer_of k req log).1
unfolding plain_text_response handle_echo handle_status handle_error handle_health add_record equal
    get_all_status
answer_of-Promises echo_service req log = record {
  code = refl;
  medium = simp lookup-assign;
  told = simp lookup-assign;
  closed = simp lookup-assign;
  page = echo-IsPage req.uri log;
  recorded = rw (format_record-entry echo_service req.uri) refl;
}
answer_of-Promises status_service req log = record {
  code = refl;
  medium = simp lookup-assign;
  told = simp lookup-assign;
  closed = simp lookup-assign;
  page = rw (format_record-entry status_service req.uri, join_records-all_of, length-append) refl;
  recorded = rw (format_record-entry status_service req.uri) refl;
}
answer_of-Promises error_service req log = record {
  code = refl;
  medium = simp lookup-assign;
  told = simp lookup-assign;
  closed = simp lookup-assign;
  page = refl;
  recorded = rw (format_record-entry error_service req.uri) refl;
}
answer_of-Promises health_service req log = record {
  code = refl;
  medium = simp lookup-assign;
  told = simp lookup-assign;
  closed = simp lookup-assign;
  page = refl;
  recorded = rw (format_record-entry health_service req.uri) refl;
}
