-- ===== src/Server/Sessions/Frame.antt =====
-- A session, while others go on.
use cs130capstoneproject.Base.{
  Bool-cases, inl, inr, ℕ, ◌≡◌, ◌≢◌, ◌∙◌, Bool, true, false, Option, none, some, List, [], ◌∷◌,
  ◌++◌, length, get_elem?, update, get_elem?-update_other, get_elem?-append,
}
use cs130capstoneproject.Base.Bytes.{Bytes}
use cs130capstoneproject.RequestParser.Request.{Request}
use cs130capstoneproject.Http.Response.{Response}
use cs130capstoneproject.Handlers.Log.{Log}
use cs130capstoneproject.Session.Tasks
use cs130capstoneproject.Session.Reading.{Action, read_some, deleted, handle_read, handle_write}
use cs130capstoneproject.Session.Buffer.{overwrite, c_string}
use cs130capstoneproject.Server.Sessions
use cs130capstoneproject.Server.Sessions.State.{
  Session, new_session, Event, accepted, accept_failed, was_read, read_failed, was_written,
  write_failed, session_of, without, completed, perform,
}

module _ (Handler : Type 0) (Shared : Type 0)
    (handle : Handler → Request → Log × Shared → Option (Response × Log × Shared))
    (accepts : ℕ → ℕ → ℕ) (regex_match : Bytes → Bytes → Bool) where
  abbrev Server : Type 0
  Server = Sessions.Server Handler Shared handle accepts regex_match

  abbrev Stepped : Type 0
  Stepped = Option (List Action × Server)

  abbrev World : Type 0
  World = Tasks.World Handler Shared handle accepts

  abbrev step : Event → Server → Stepped
  step = Sessions.step Handler Shared handle accepts regex_match

  -- The session `i` of the server.
  abbrev pub session_at : ℕ → Server → Option Session
  session_at i s = get_elem? s.sessions i

  abbrev pub Keeps : ℕ → Session → Stepped → Type 0
  Keeps i c none = Unit
  Keeps i c (some (actions, t)) = session_at i t ≡ some c

  module _ (i j : ℕ) (c : Session) (ne : j ≢ i) where
    settle-Keeps :
        (d : Session) (s : Server) (h : Option (List Action × World))
        → session_at i s ≡ some c
        → Keeps i c (Sessions.settle Handler Shared handle accepts regex_match j d s h)
    settle-Keeps d s none here = tt
    settle-Keeps d s (some (actions, w)) here = get_elem?-update_other j i _ s.sessions ne ∙ here

    reset_ip-Keeps :
        (o : Stepped)
        → Keeps i c o
        → Keeps i c (Sessions.with_reset_ip Handler Shared handle accepts regex_match o)
    reset_ip-Keeps none h = tt
    reset_ip-Keeps (some (actions, s)) h = h

    read_array-Keeps :
        (d : Session) (s : Server) (n : ℕ) (o : Option Bytes)
        → session_at i s ≡ some c
        → Keeps i c (Sessions.read_array Handler Shared handle accepts regex_match j d s n o)
    read_array-Keeps d s n none here = tt
    read_array-Keeps d s n (some request) here =
        settle-Keeps d s
          (handle_read Handler Shared handle accepts regex_match false request n
            (Sessions.world_of Handler Shared handle accepts regex_match s d))
          here

    start_accept-Keeps :
        (d b : Session) (s : Server)
        → session_at i s ≡ some c
        → get_elem? (update j d s.sessions ++ b ∷ []) i ≡ some c
    start_accept-Keeps d b s here =
        get_elem?-append i c (update j d s.sessions) (b ∷ [])
          (get_elem?-update_other j i d s.sessions ne ∙ here)

  handle_event-Keeps :
      (e : Event) (i : ℕ) (c d : Session) (s : Server)
      → session_of e ≢ i
      → session_at i s ≡ some c
      → Keeps i c (Sessions.handle_event Handler Shared handle accepts regex_match e d s)
  handle_event-Keeps (accepted j none m) i c d s ne here = tt
  handle_event-Keeps (accepted j (some peer) m) i c d s ne here =
      start_accept-Keeps i j c ne (perform read_some d) (new_session m) s here
  handle_event-Keeps (accept_failed j m) i c d s ne here =
      start_accept-Keeps i j c ne (perform deleted d) (new_session m) s here
  handle_event-Keeps (was_read j received) i c d s ne here =
      let array = overwrite received d.array in
      read_array-Keeps i j c ne (record d { array = array }) s (length received) (c_string array)
        here
  handle_event-Keeps (read_failed j) i c d s ne here =
      let h =
        handle_read Handler Shared handle accepts regex_match true [] 0
          (Sessions.world_of Handler Shared handle accepts regex_match s d) in
      reset_ip-Keeps i j c ne (Sessions.settle Handler Shared handle accepts regex_match j d s h)
        (settle-Keeps i j c ne d s h here)
  handle_event-Keeps (was_written j) i c d s ne here =
      settle-Keeps i j c ne d s
        (handle_write Handler Shared handle accepts regex_match false
          (Sessions.world_of Handler Shared handle accepts regex_match s d))
        here
  handle_event-Keeps (write_failed j) i c d s ne here =
      let h =
        handle_write Handler Shared handle accepts regex_match true
          (Sessions.world_of Handler Shared handle accepts regex_match s d) in
      reset_ip-Keeps i j c ne (Sessions.settle Handler Shared handle accepts regex_match j d s h)
        (settle-Keeps i j c ne d s h here)

  step_of-Keeps :
      (e : Event) (i : ℕ) (c : Session) (s : Server) (o : Option Session)
      → session_of e ≢ i
      → session_at i s ≡ some c
      → Keeps i c (Sessions.step_of Handler Shared handle accepts regex_match e s o)
  step_of-Keeps e i c s none ne here = tt
  step_of-Keeps e i c s (some d) ne here = elim (Bool-cases d.alive) [
    | inr dead ↦ rw dead tt
    | inl alive ↦ rw alive (
        handle_event-Keeps e i c (record d { operations = without (completed e) d.operations }) s ne
          here)
  ]

  -- An event leaves the sessions as they are that it is not of.
  pub step-Keeps :
      (e : Event) (i : ℕ) (c : Session) (s : Server)
      → session_of e ≢ i
      → session_at i s ≡ some c
      → Keeps i c (step e s)
  unfolding Sessions.step
  step-Keeps e i c s ne here = step_of-Keeps e i c s (session_at (session_of e) s) ne here
