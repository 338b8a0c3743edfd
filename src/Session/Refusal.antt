-- ===== src/Session/Refusal.antt =====
-- What a session answers to a request line of a method that it does not know.
use cs130capstoneproject.Base.{
  ℕ, ◌≡◌, ◌≢◌, Bool, true, false, Option, List, [], ◌++◌, ◌==◌, length, All,
}
use cs130capstoneproject.Base.Bytes.{Bytes}
use cs130capstoneproject.RequestParser.Request.{Request}
use cs130capstoneproject.Http.Response.{Response}
use cs130capstoneproject.Http.Utils.{crlf}
use cs130capstoneproject.Handlers.Log.{Log}
use cs130capstoneproject.Session.Checks.{check_request_line, knows_method}
use cs130capstoneproject.Session.Reading
use cs130capstoneproject.Session.Reading.{Action, read_some, handle_read}
use cs130capstoneproject.Session.Tasks

module _ (Handler : Type 0) (Shared : Type 0)
    (handle : Handler → Request → Log × Shared → Option (Response × Log × Shared))
    (accepts : ℕ → ℕ → ℕ) (regex_match : Bytes → Bytes → Bool) where
  abbrev World : Type 0
  World = Tasks.World Handler Shared handle accepts

  abbrev read_event : Bytes → World → Option (List Action × World)
  read_event s w = handle_read Handler Shared handle accepts regex_match false s (length s) w

  -- The bytes of a request line, but of a method that is not known.
  abbrev pub IsUnknownLine : Bytes → Type 0
  IsUnknownLine text =
      (text ≢ [])
      × All (λ c. (c == b'\r') ≡ false) text
      × (check_request_line regex_match (text ++ crlf) ≡ true)
      × (knows_method (text ++ crlf) ≡ false)
