-- ===== src/Handlers/Reports.antt =====
-- What the responses and the log say.
use cs130capstoneproject.Base.{
  ◌+◌, ◌<◌, ◌≡◌, refl, some, [], ◌∷◌, ◌++◌, append_assoc, append-nil, length, length-append,
}
use cs130capstoneproject.Base.Bytes.{Bytes, codes, equal}
use cs130capstoneproject.Base.Map.{lookup, lookup-assign}
use cs130capstoneproject.RequestParser.Request.{Request}
use cs130capstoneproject.RequestParser.Numbers.{u64_mod, stoull}
use cs130capstoneproject.RequestParser.HeaderMap.{or_empty}
use cs130capstoneproject.Http.Decimal.{to_string, stoull-to_string}
use cs130capstoneproject.Http.Status
use cs130capstoneproject.Http.Status.{StatusCode}
use cs130capstoneproject.Http.Utils.{plain_text_response}
use cs130capstoneproject.Handlers.Log.{
  Log, add_record, format_record, join_records, get_all_status, handle_status,
}

-- A plain text response whose text is shorter than 2 ^ 64 bytes announces its length: its
-- Content-length header, read as the request parser reads it, is the length of the text; and its
-- Connection header is "close".
pub plain_text_response-announces :
    (text : Bytes) (code : StatusCode)
    → length text < u64_mod
    → (stoull (or_empty (lookup (codes "Content-length") (plain_text_response text code).headers))
        ≡ some (length text))
      × (lookup (codes "Connection") (plain_text_response text code).headers ≡ some (codes "close"))
unfolding plain_text_response equal
plain_text_response-announces text code h =
    (simp lookup-assign (stoull-to_string (length text) h), simp lookup-assign)

join_records-append : (log : Log) (r : Bytes) → join_records (log ++ r ∷ []) ≡ join_records log ++ r
unfolding join_records
join_records-append [] r = append-nil r
join_records-append (x ∷ log) r = rw (join_records-append log r) (simp append_assoc)

-- The status page counts itself: it shows the number of records with its own, and then all of
-- them, its own last; and it stays in the log.
pub handle_status-shows :
    (req : Request) (log : Log)
    → let record_of = format_record req.uri (codes "StatusHandler") Status.ok in
      ((handle_status req log).0.body
        ≡ codes "Total Requests: "
          ++ (to_string (length log + 1) ++ (codes "\n\n" ++ (join_records log ++ record_of))))
      × ((handle_status req log).1 ≡ log ++ record_of ∷ [])
unfolding handle_status get_all_status add_record plain_text_response
handle_status-shows req log = (rw (join_records-append, length-append) refl, refl)
