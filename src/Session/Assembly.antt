-- ===== src/Session/Assembly.antt =====
-- How a session puts a request together from the lines that `session::handle_read` is given.
use cs130capstoneproject.Base.{
  ℕ, ◌+◌, ◌≡◌, refl, ap, ◌∙◌, Bool, true, false, Option, none, some, List, [], ◌∷◌, ◌++◌, ◌==◌, map,
  arith, length, drop, take, append-nil, append_assoc, Bool-cases, inl, inr, All,
}
use cs130capstoneproject.Base.Bytes.{Bytes, equal, equal_iff, find, starts_with}
use cs130capstoneproject.Base.Map.{lookup}
use cs130capstoneproject.RequestParser.Request.{Request}
use cs130capstoneproject.RequestParser.State.{fresh}
use cs130capstoneproject.RequestParser.Print.{Message, print, IsWellFormed}
use cs130capstoneproject.RequestParser.RoundTrip.Whole.{message_request}
use cs130capstoneproject.Http.Response.{Response}
use cs130capstoneproject.Http.Utils.{crlf, complete, check_method}
use cs130capstoneproject.Handlers.Log.{Log}
use cs130capstoneproject.Dispatcher.{dispatch}
use cs130capstoneproject.Session.Routing.{route}
use cs130capstoneproject.Session.Answers.{answered, good_request-handled}
use cs130capstoneproject.Session.Checks.{
  check_header, check_request_line, check_request, check_headers, knows_method,
}
use cs130capstoneproject.Session.Reading
use cs130capstoneproject.Session.Reading.{Action, write, clear, read_some, handle_read}
use cs130capstoneproject.Session.Tasks

pub find-crlf :
    (s : Bytes) → All (λ c. (c == b'\r') ≡ false) s → find crlf (s ++ crlf) ≡ some (length s)
unfolding find starts_with
find-crlf [] h = refl
find-crlf (c ∷ s) (h, hs) = ground (arith, find-crlf s hs)

pub take-append : (s t : Bytes) → take (length s) (s ++ t) ≡ s
take-append [] t = refl
take-append (c ∷ s) t = ap (◌∷◌ c) (take-append s t)

drop-crlf : (s : Bytes) → drop (length s + 2) (s ++ crlf) ≡ []
drop-crlf [] = refl
drop-crlf (c ∷ s) = ground (arith, drop-crlf s)

knows_method-crlf : knows_method crlf ≡ false
unfolding check_method find starts_with equal
knows_method-crlf = refl

knows_method-ne-crlf : (s : Bytes) → knows_method s ≡ true → equal s crlf ≡ false
knows_method-ne-crlf s h = elim (Bool-cases (equal s crlf)) [
  | inr e ↦ e
  | inl e ↦ cc (h, ap knows_method ((equal_iff s crlf).0 e), knows_method-crlf)
]

module _ (Handler : Type 0) (Shared : Type 0)
    (handle : Handler → Request → Log × Shared → Option (Response × Log × Shared))
    (accepts : ℕ → ℕ → ℕ) (regex_match : Bytes → Bytes → Bool) where
  abbrev World : Type 0
  World = Tasks.World Handler Shared handle accepts

  abbrev read_event : Bytes → World → Option (List Action × World)
  read_event s w = handle_read Handler Shared handle accepts regex_match false s (length s) w

  -- The session, if all that it did was to clear its array and start another read.
  abbrev pub awaiting : Option (List Action × World) → Option World
  awaiting (some (clear ∷ read_some ∷ [], w)) = some w
  awaiting _ = none

  abbrev and_then : (World → Option World) → Option World → Option World
  and_then k none = none
  and_then k (some w) = k w

  -- The session after it has read some texts, each in one event, where it waits for more after each.
  pub read_lines : List Bytes → World → Option World
  read_lines [] w = some w
  read_lines (s ∷ ss) w = and_then (read_lines ss) (awaiting (read_event s w))

  -- A line that ends the way a request line does, and that is one of a known method.
  abbrev pub IsRequestLine : Bytes → Type 0
  IsRequestLine text =
      All (λ c. (c == b'\r') ≡ false) text
      × (check_request_line regex_match (text ++ crlf) ≡ true)
      × (knows_method (text ++ crlf) ≡ true)

  -- A text that is a header, is not the empty line, and could not begin a request.
  abbrev pub IsHeaderLine : Bytes → Type 0
  IsHeaderLine s =
      (check_header regex_match s ≡ true)
      × (check_request_line regex_match s ≡ false)
      × (equal s crlf ≡ false)

  check_request-line :
      (s : Bytes) → IsRequestLine s → check_request regex_match (s ++ crlf) ≡ some false
  unfolding check_request check_headers find starts_with
  check_request-line s (plain, is_line, known) =
      rw (find-crlf s plain, take-append s crlf, is_line, known, drop-crlf s) (no_header)
    where
      no_header : check_headers regex_match 1 [] ≡ some false
      no_header = refl

  abbrev pub joined : List Bytes → Bytes
  joined [] = []
  joined (s ∷ ss) = s ++ joined ss

  -- The session behind a line.
  abbrev pub started : Bytes → World → World
  started s w = record w { request_start = true; http_body = w.http_body ++ s }

  pub read_event-line :
      (s : Bytes) (w : World)
      → w.request_start ≡ false
      → IsRequestLine s
      → read_event (s ++ crlf) w ≡ some (clear ∷ read_some ∷ [], started (s ++ crlf) w)
  unfolding handle_read complete
  read_event-line s w idle line =
      rw (idle, knows_method-ne-crlf (s ++ crlf) line.2, check_request-line s line, line.1, line.2)
        refl

  pub read_event-header :
      (s : Bytes) (w : World)
      → w.request_start ≡ true
      → IsHeaderLine s
      → read_event s w ≡ some (clear ∷ read_some ∷ [], started s w)
  unfolding handle_read complete
  read_event-header s w busy header = rw (busy, header.2, header.1, header.0) refl

  read_lines-headers :
      (ss : List Bytes) (w : World)
      → w.request_start ≡ true
      → All IsHeaderLine ss
      → read_lines ss w ≡ some (started (joined ss) w)
  unfolding read_lines
  read_lines-headers [] w busy hs = ground (arith, append-nil w.http_body)
  read_lines-headers (s ∷ ss) w busy (h, hs) =
      rw (read_event-header s w busy h, read_lines-headers ss (started s w) refl hs)
        (ground (arith, append_assoc w.http_body s (joined ss)))

  -- The request as it is read: its first line, the headers and the empty line.
  abbrev pub text_of : Bytes → List Bytes → Bytes
  text_of s ss = ((s ++ crlf) ++ joined ss) ++ crlf

  read_lines-started :
      (s : Bytes) (ss : List Bytes) (w : World)
      → w.request_start ≡ false
      → IsRequestLine s
      → All IsHeaderLine ss
      → read_lines ((s ++ crlf) ∷ ss) w ≡ some (started ((s ++ crlf) ++ joined ss) w)
  unfolding read_lines
  read_lines-started s ss w idle line hs =
      rw (read_event-line s w idle line, read_lines-headers ss (started (s ++ crlf) w) refl hs)
        (ground (arith, append_assoc w.http_body (s ++ crlf) (joined ss)))

  pub read_event-end :
      (s : Bytes) (w : World)
      → read_event crlf (started s w)
        ≡ Reading.good Handler Shared handle accepts regex_match
            (record w { request_start = false; http_body = (w.http_body ++ s) ++ crlf })
  unfolding handle_read complete equal
  read_event-end s w = refl

  -- Where the text of a well-formed request whose URI leads to a handler reaches a session with a new
  -- parser, which is not in a request and has read no text, in pieces: a request line of a known method,
  -- texts that are headers, and the empty line last. The session does nothing but start another read
  -- after each piece but the last. After that it dispatches the response that the handler makes, if it
  -- makes one, of the request as it was sent, and it is as before, but for the state that handlers share.
  pub read_lines-handled :
      (w : World) (r : ℕ) (m : Message) (key : Bytes) (h : Handler) (res : Response) (log : Log)
      (shared : Shared) (s : Bytes) (ss : List Bytes)
      → w.request_start ≡ false
      → w.http_body ≡ []
      → w.parser ≡ fresh r
      → IsRequestLine s
      → All IsHeaderLine ss
      → text_of s ss ≡ print m []
      → IsWellFormed m
      → route w.handlers m.uri ≡ some (true, key)
      → lookup key w.handlers ≡ some (some h)
      → handle h (message_request m) w.shared ≡ some (res, log, shared)
      → (w' : World) × (read_lines ((s ++ crlf) ∷ ss) w ≡ some w')
        × ((r' : ℕ) × (read_event crlf w'
              ≡ some (
                map write (dispatch accepts res),
                record (answered Handler Shared handle accepts w (fresh r') (log, shared)) {
                  request_start = false;
                },
              )))
  read_lines-handled w r m key h res log shared s ss idle empty parser line hs text wf found known
        answer =
      let w' = record w { request_start = false; http_body = print m [] } in
      let done =
        good_request-handled Handler Shared handle accepts w' r m key h res log shared parser wf
          found known answer in
      (
        started ((s ++ crlf) ++ joined ss) w,
        read_lines-started s ss w idle line hs,
        (done.0, read_event-end ((s ++ crlf) ++ joined ss) w ∙ rw (empty, text) (rw done.1 refl)),
      )
