-- ===== src/Server/Sessions/Accepting.antt =====
-- The sessions that wait for a client.
use cs130capstoneproject.Base.{
  ℕ, zero, suc, ◌+◌, ◌≡◌, ap, ◌∙◌, Bool, true, false, Option, none, some, List, [], ◌∷◌, ◌++◌,
  arith, length, get_elem?, update, Bool-cases, inl, inr,
}
use mathlib.Core.Path.{subst}
use cs130capstoneproject.Base.Bytes.{Bytes}
use cs130capstoneproject.RequestParser.Request.{Request}
use cs130capstoneproject.Http.Response.{Response}
use cs130capstoneproject.Handlers.Log.{Log}
use cs130capstoneproject.Dispatcher.{async_write, write_some}
use cs130capstoneproject.Session.Tasks
use cs130capstoneproject.Session.Reading.{
  Action, write, clear, read_some, deleted, handle_read, handle_write,
}
use cs130capstoneproject.Session.Buffer.{overwrite, c_string}
use cs130capstoneproject.Server.Sessions
use cs130capstoneproject.Server.Sessions.{event, start, later}
use cs130capstoneproject.Server.Sessions.State.{
  Operation, accepting, reading, writing, Session, without, waits_for, Memory, new_session, Event,
  accepted, accept_failed, was_read, read_failed, was_written, write_failed, session_of, completed,
  perform, perform_all,
}
use cs130capstoneproject.Server.Sessions.Effects.{perform_all-ind}

abbrev is_accepting : Operation → ℕ
is_accepting accepting = 1
is_accepting _ = 0

abbrev accepts_of : List Operation → ℕ
accepts_of [] = 0
accepts_of (o ∷ os) = is_accepting o + accepts_of os

-- How many accepts the server has started that have not completed.
abbrev pub waiting : List Session → ℕ
waiting [] = 0
waiting (c ∷ cs) = accepts_of c.operations + waiting cs

accepts_of-without :
    (o : Operation) (os : List Operation)
    → waits_for o os ≡ true
    → accepts_of (without o os) + is_accepting o ≡ accepts_of os
accepts_of-without o [] h = cc
accepts_of-without accepting (accepting ∷ os) h = omega arith
accepts_of-without accepting (reading ∷ os) h = omega (arith, accepts_of-without accepting os h)
accepts_of-without accepting (writing ∷ os) h = omega (arith, accepts_of-without accepting os h)
accepts_of-without reading (accepting ∷ os) h = omega (arith, accepts_of-without reading os h)
accepts_of-without reading (reading ∷ os) h = omega arith
accepts_of-without reading (writing ∷ os) h = omega (arith, accepts_of-without reading os h)
accepts_of-without writing (accepting ∷ os) h = omega (arith, accepts_of-without writing os h)
accepts_of-without writing (reading ∷ os) h = omega (arith, accepts_of-without writing os h)
accepts_of-without writing (writing ∷ os) h = omega arith

waiting-update :
    (i : ℕ) (c d : Session) (cs : List Session)
    → get_elem? cs i ≡ some c
    → waiting (update i d cs) + accepts_of c.operations ≡ waiting cs + accepts_of d.operations
waiting-update i c d [] h = cc
waiting-update zero c d (b ∷ cs) h = grind arith
waiting-update (suc i) c d (b ∷ cs) h = omega (arith, waiting-update i c d cs h)

waiting-append : (cs ds : List Session) → waiting (cs ++ ds) ≡ waiting cs + waiting ds
waiting-append [] ds = omega arith
waiting-append (c ∷ cs) ds = omega (arith, waiting-append cs ds)

perform-accepts_of :
    (n : ℕ) (a : Action) (c : Session)
    → accepts_of c.operations ≡ n
    → accepts_of (perform a c).operations ≡ n
perform-accepts_of n (write (async_write s)) c h = omega arith
perform-accepts_of n (write (write_some s)) c h = h
perform-accepts_of n clear c h = h
perform-accepts_of n read_some c h = omega arith
perform-accepts_of n deleted c h = h

perform_all-accepts_of :
    (n : ℕ) (actions : List Action) (c : Session)
    → accepts_of c.operations ≡ n
    → accepts_of (perform_all actions c).operations ≡ n
perform_all-accepts_of n = perform_all-ind (λ c. accepts_of c.operations ≡ n) (perform-accepts_of n)

module _ (Handler : Type 0) (Shared : Type 0)
    (handle : Handler → Request → Log × Shared → Option (Response × Log × Shared))
    (accepts : ℕ → ℕ → ℕ) (regex_match : Bytes → Bytes → Bool) where
  abbrev Server : Type 0
  Server = Sessions.Server Handler Shared handle accepts regex_match

  abbrev Stepped : Type 0
  Stepped = Option (List Action × Server)

  abbrev World : Type 0
  World = Tasks.World Handler Shared handle accepts

  -- A server that waits for so many clients.
  abbrev Waits : ℕ → Stepped → Type 0
  Waits n none = Unit
  Waits n (some (actions, t)) = waiting t.sessions ≡ n

  settle-Waits :
      (i : ℕ) (b c : Session) (s : Server) (h : Option (List Action × World))
      → get_elem? s.sessions i ≡ some b
      → accepts_of c.operations ≡ accepts_of b.operations
      → Waits
          (waiting s.sessions)
          (Sessions.settle Handler Shared handle accepts regex_match i c s h)
  settle-Waits i b c s none here same = tt
  settle-Waits i b c s (some (actions, w)) here same =
      let c' = record c {
        request = w.request;
        request_start = w.request_start;
        http_body = w.http_body;
      } in
      omega (
        arith,
        waiting-update i b (perform_all actions c') s.sessions here,
        perform_all-accepts_of (accepts_of b.operations) actions c' same,
      )

  reset_ip-Waits :
      (n : ℕ) (o : Stepped)
      → Waits n o
      → Waits n (Sessions.with_reset_ip Handler Shared handle accepts regex_match o)
  reset_ip-Waits n none h = tt
  reset_ip-Waits n (some (actions, s)) h = h

  read_array-Waits :
      (i : ℕ) (b c : Session) (s : Server) (n : ℕ) (o : Option Bytes)
      → get_elem? s.sessions i ≡ some b
      → accepts_of c.operations ≡ accepts_of b.operations
      → Waits
          (waiting s.sessions)
          (Sessions.read_array Handler Shared handle accepts regex_match i c s n o)
  read_array-Waits i b c s n none here same = tt
  read_array-Waits i b c s n (some request) here same =
      settle-Waits i b c s
        (handle_read Handler Shared handle accepts regex_match false request n
          (Sessions.world_of Handler Shared handle accepts regex_match s c))
        here same

  start_accept-Waits :
      (i : ℕ) (b c : Session) (m : Memory) (s : Server)
      → get_elem? s.sessions i ≡ some b
      → accepts_of c.operations + 1 ≡ accepts_of b.operations
      → waiting (update i c s.sessions ++ new_session m ∷ []) ≡ waiting s.sessions
  start_accept-Waits i b c m s here one = omega (
    arith,
    waiting-append (update i c s.sessions) (new_session m ∷ []),
    waiting-update i b c s.sessions here,
  )

  handle_event-Waits :
      (e : Event) (b c : Session) (s : Server)
      → get_elem? s.sessions (session_of e) ≡ some b
      → accepts_of c.operations + is_accepting (completed e) ≡ accepts_of b.operations
      → Waits
          (waiting s.sessions)
          (Sessions.handle_event Handler Shared handle accepts regex_match e c s)
  handle_event-Waits (accepted i none m) b c s here one = tt
  handle_event-Waits (accepted i (some peer) m) b c s here one =
      start_accept-Waits i b (perform read_some c) m s here (omega arith)
  handle_event-Waits (accept_failed i m) b c s here one =
      start_accept-Waits i b (perform deleted c) m s here (omega arith)
  handle_event-Waits (was_read i received) b c s here one =
      let array = overwrite received c.array in
      read_array-Waits i b (record c { array = array }) s (length received) (c_string array) here
        (omega arith)
  handle_event-Waits (read_failed i) b c s here one =
      let h =
        handle_read Handler Shared handle accepts regex_match true [] 0
          (Sessions.world_of Handler Shared handle accepts regex_match s c) in
      reset_ip-Waits (waiting s.sessions)
        (Sessions.settle Handler Shared handle accepts regex_match i c s h)
        (settle-Waits i b c s h here (omega arith))
  handle_event-Waits (was_written i) b c s here one =
      settle-Waits i b c s
        (handle_write Handler Shared handle accepts regex_match false
          (Sessions.world_of Handler Shared handle accepts regex_match s c))
        here (omega arith)
  handle_event-Waits (write_failed i) b c s here one =
      let h =
        handle_write Handler Shared handle accepts regex_match true
          (Sessions.world_of Handler Shared handle accepts regex_match s c) in
      reset_ip-Waits (waiting s.sessions)
        (Sessions.settle Handler Shared handle accepts regex_match i c s h)
        (settle-Waits i b c s h here (omega arith))

  step-Waits :
      (e : Event) (s : Server)
      → Sessions.IsPossible Handler Shared handle accepts regex_match e s
      → Waits (waiting s.sessions) (Sessions.step Handler Shared handle accepts regex_match e s)
  unfolding Sessions.step
  step-Waits e s p = rw p.stands (elim (Bool-cases p.session.alive) [
    | inr dead ↦ rw dead tt
    | inl alive ↦ rw alive (
        handle_event-Waits e p.session
          (record p.session { operations = without (completed e) p.session.operations }) s p.stands
          (accepts_of-without (completed e) p.session.operations p.waits))
  ])

  -- In every state that a started server reaches it waits for exactly one client: however its
  -- sessions end, and whether an accept fails or not, the next accept is started, and only one.
  pub Reach-waiting :
      {s t : Server}
      → Sessions.IsStarted Handler Shared handle accepts regex_match s
      → Sessions.Reach Handler Shared handle accepts regex_match s t
      → waiting t.sessions ≡ 1
  Reach-waiting h start = ap waiting h.waits
  Reach-waiting h (later {t} r (event e p stepped)) =
      subst (Waits (waiting t.sessions)) stepped (step-Waits e t p) ∙ Reach-waiting h r
