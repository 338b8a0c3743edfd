-- ===== src/Handlers/Log.antt =====
-- src/status_handler.cc: the log of requests that all handlers share, and the page that shows it.
use cs130capstoneproject.Base.{List, [], ◌∷◌, ◌++◌, ◌==◌, length, ◌||◌, if◌then◌else◌}
use cs130capstoneproject.Base.Bytes.{Bytes, codes, equal}
use cs130capstoneproject.RequestParser.Request.{Request}
use cs130capstoneproject.Http.Decimal.{to_string}
use cs130capstoneproject.Http.Status
use cs130capstoneproject.Http.Status.{StatusCode}
use cs130capstoneproject.Http.Response.{Response}
use cs130capstoneproject.Http.Utils.{plain_text_response}

-- the static list `StatusHandler::status`
abbrev pub Log : Type 0
Log = List Bytes

-- `statusToStr`: other codes have no text
unfoldable pub status_to_str : StatusCode → Bytes
status_to_str code =
    if code == Status.ok
    then codes "200"
    else if code == Status.not_found
    then codes "404"
    else if code == Status.bad_request
    then codes "400"
    else []

abbrev handler_line : Bytes → Bytes
handler_line [] = codes "Handler: None\n"
handler_line (c ∷ s) = codes "Handler: " ++ ((c ∷ s) ++ codes "\n")

unfoldable pub format_record : Bytes → Bytes → StatusCode → Bytes
format_record uri handler code =
    (codes "URI: " ++ (uri ++ codes "\n"))
    ++ (handler_line handler ++ (codes "Status Code: " ++ (status_to_str code ++ codes "\n\n")))

-- `addRecord`
unfoldable pub add_record : Bytes → Bytes → StatusCode → Log → Log
add_record uri handler code log = log ++ format_record uri handler code ∷ []

-- `getStatusCode`
unfoldable pub get_status_code : Bytes → StatusCode
get_status_code name =
    if equal name (codes "EchoHandler")
      || equal name (codes "StaticHandler")
      || equal name (codes "StatusHandler")
    then Status.ok
    else Status.not_found

-- the loop of `getAllStatus`
unfoldable pub join_records : Log → Bytes
join_records [] = []
join_records (r ∷ log) = r ++ join_records log

unfoldable pub get_all_status : Log → Bytes
get_all_status log =
    codes "Total Requests: " ++ (to_string (length log) ++ (codes "\n\n" ++ join_records log))

-- `StatusHandler::handleRequest`
unfoldable pub handle_status : Request → Log → Response × Log
handle_status req log =
    let log' = add_record req.uri (codes "StatusHandler") Status.ok log in
    (plain_text_response (get_all_status log') Status.ok, log')
