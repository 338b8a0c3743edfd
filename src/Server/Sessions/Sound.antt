-- ===== src/Server/Sessions/Sound.antt =====
-- What holds of every session that a server can reach.
use cs130capstoneproject.Base.{
  ℕ, ◌+◌, ◌≡◌, refl, ◌∙◌, sym, Bool, true, false, Option, none, some, List, [], ◌∷◌, ◌++◌, arith,
  length, update, if◌then◌else◌, All, All-append, All-update, All-get_elem?,
}
use mathlib.Core.Path.{subst}
use cs130capstoneproject.Server.Sessions.{event, start, later}
use cs130capstoneproject.Base.Bytes.{Bytes}
use cs130capstoneproject.RequestParser.Request.{Request}
use cs130capstoneproject.Http.Response.{Response}
use cs130capstoneproject.Handlers.Log.{Log}
use cs130capstoneproject.Session.Tasks
use cs130capstoneproject.Session.Reading.{Action, read_some, deleted, handle_read, handle_write}
use cs130capstoneproject.Session.Buffer.{max_length, overwrite, c_string, length-overwrite}
use cs130capstoneproject.Server.Sessions
use cs130capstoneproject.Server.Sessions.{
  Operation, Session, same, without, waits_for, Memory, new_session, Event, accepted, accept_failed,
  was_read, read_failed, was_written, write_failed, session_of, completed, Fits, perform,
  perform_all,
}
use cs130capstoneproject.Server.Sessions.Effects
use cs130capstoneproject.Server.Sessions.Effects.{
  IsNext, starts, deletes, starts-perform_all, alive-perform_all, array-perform_all,
  text-perform_all, handle_read-Settled,
}

-- A session waits for one operation, if it is alive, and for none after it is deleted; its array has
-- its size, and outside of a request it keeps no text.
pub record IsSound (c : Session) : Type 0 where
  pub one_operation : length c.operations ≡ (if c.alive then 1 else 0)
  pub array_size : length c.array ≡ max_length
  pub no_text : c.request_start ≡ false → c.http_body ≡ []

length-without :
    (o : Operation) (os : List Operation)
    → waits_for o os ≡ true
    → length (without o os) + 1 ≡ length os
length-without o [] h = cc
length-without o (p ∷ os) h = ground (arith, length-without o os)

-- A session that waits for an operation is alive, and for no other one.
pub waiting-alive :
    (o : Operation) (c : Session)
    → IsSound c
    → waits_for o c.operations ≡ true
    → (c.alive ≡ true) × (length (without o c.operations) ≡ 0)
waiting-alive o c sound waits =
    ground (arith, length-without o c.operations waits, sound.one_operation)

new_session-IsSound : (m : Memory) → length m.array ≡ max_length → IsSound (new_session m)
new_session-IsSound m h = record { one_operation = refl; array_size = h; no_text = λ e. refl }

-- A session whose operation has completed.
record IsResting (c : Session) : Type 0 where
  none_left : length c.operations ≡ 0
  alive : c.alive ≡ true
  array_size : length c.array ≡ max_length

perform_all-IsSound :
    (actions : List Action) (c : Session)
    → IsResting c
    → IsNext actions
    → (c.request_start ≡ false → c.http_body ≡ [])
    → IsSound (perform_all actions c)
perform_all-IsSound actions c rest next idle = record {
  one_operation = ground (
    arith,
    starts-perform_all actions c,
    alive-perform_all actions c rest.alive,
    rest.none_left,
    next,
  );
  array_size = array-perform_all actions c rest.array_size;
  no_text = text-perform_all actions c idle;
}

module _ (Handler : Type 0) (Shared : Type 0)
    (handle : Handler → Request → Log × Shared → Option (Response × Log × Shared))
    (accepts : ℕ → ℕ → ℕ) (regex_match : Bytes → Bytes → Bool) where
  abbrev Server : Type 0
  Server = Sessions.Server Handler Shared handle accepts regex_match

  abbrev Stepped : Type 0
  Stepped = Option (List Action × Server)

  abbrev World : Type 0
  World = Tasks.World Handler Shared handle accepts

  abbrev world_of : Server → Session → World
  world_of = Sessions.world_of Handler Shared handle accepts regex_match

  abbrev written : Bool → World → Option (List Action × World)
  written = handle_write Handler Shared handle accepts regex_match

  abbrev step : Event → Server → Stepped
  step = Sessions.step Handler Shared handle accepts regex_match

  abbrev IsPossible : Event → Server → Type 0
  IsPossible = Sessions.IsPossible Handler Shared handle accepts regex_match

  abbrev pub AllSound : Server → Type 0
  AllSound s = All IsSound s.sessions

  abbrev SoundAfter : Stepped → Type 0
  SoundAfter none = Unit
  SoundAfter (some (actions, t)) = AllSound t

  settle-Sound :
      (i : ℕ) (c : Session) (s : Server) (h : Option (List Action × World))
      → IsResting c
      → AllSound s
      → Effects.Settled Handler Shared handle accepts regex_match h
      → SoundAfter (Sessions.settle Handler Shared handle accepts regex_match i c s h)
  settle-Sound i c s none rest sound next = tt
  settle-Sound i c s (some (actions, w)) rest sound (next, idle) =
      let c' = record c {
        request = w.request;
        request_start = w.request_start;
        http_body = w.http_body;
      } in
      All-update IsSound i (perform_all actions c') s.sessions
        (perform_all-IsSound actions c'
          (record { none_left = rest.none_left; alive = rest.alive; array_size = rest.array_size })
          next idle)
        sound

  reset_ip-Sound :
      (o : Stepped)
      → SoundAfter o
      → SoundAfter (Sessions.with_reset_ip Handler Shared handle accepts regex_match o)
  reset_ip-Sound none h = tt
  reset_ip-Sound (some (actions, s)) h = h

  read_array-Sound :
      (i : ℕ) (c : Session) (s : Server) (n : ℕ) (o : Option Bytes)
      → IsResting c
      → (c.request_start ≡ false → c.http_body ≡ [])
      → AllSound s
      → SoundAfter (Sessions.read_array Handler Shared handle accepts regex_match i c s n o)
  read_array-Sound i c s n none rest idle sound = tt
  read_array-Sound i c s n (some request) rest idle sound = settle-Sound i c s _ rest sound (
      handle_read-Settled Handler Shared handle accepts regex_match false request n (world_of s c)
        idle)

  start_accept-Sound :
      (m : Memory) (i : ℕ) (c : Session) (s : Server)
      → length m.array ≡ max_length
      → IsSound c
      → AllSound s
      → All IsSound (update i c s.sessions ++ new_session m ∷ [])
  start_accept-Sound m i c s h p sound =
      All-append IsSound (update i c s.sessions) (new_session m ∷ [])
        (All-update IsSound i c s.sessions p sound) (new_session-IsSound m h, tt)

  handle_event-Sound :
      (e : Event) (c : Session) (s : Server)
      → Fits e
      → IsResting c
      → (c.request_start ≡ false → c.http_body ≡ [])
      → AllSound s
      → SoundAfter (Sessions.handle_event Handler Shared handle accepts regex_match e c s)
  handle_event-Sound (accepted i none m) c s fits rest idle sound = tt
  handle_event-Sound (accepted i (some peer) m) c s fits rest idle sound =
      start_accept-Sound m i (perform read_some c) s fits
        (perform_all-IsSound (read_some ∷ []) c rest refl idle) sound
  handle_event-Sound (accept_failed i m) c s fits rest idle sound =
      start_accept-Sound m i (perform deleted c) s fits
        (perform_all-IsSound (deleted ∷ []) c rest refl idle) sound
  handle_event-Sound (was_read i received) c s fits rest idle sound =
      let array = overwrite received c.array in
      read_array-Sound i (record c { array = array }) s (length received) (c_string array)
        (record {
          none_left = rest.none_left;
          alive = rest.alive;
          array_size =
              length-overwrite received c.array (rw rest.array_size fits) ∙ rest.array_size;
        })
        idle sound
  handle_event-Sound (read_failed i) c s fits rest idle sound =
      let h = handle_read Handler Shared handle accepts regex_match true [] 0 (world_of s c) in
      reset_ip-Sound (Sessions.settle Handler Shared handle accepts regex_match i c s h) (
        settle-Sound i c s h rest sound (
          handle_read-Settled Handler Shared handle accepts regex_match true [] 0 (world_of s c)
            idle))
  handle_event-Sound (was_written i) c s fits rest idle sound =
      settle-Sound i c s (written false (world_of s c)) rest sound (refl, idle)
  handle_event-Sound (write_failed i) c s fits rest idle sound =
      let h = written true (world_of s c) in
      reset_ip-Sound (Sessions.settle Handler Shared handle accepts regex_match i c s h)
        (settle-Sound i c s h rest sound (refl, idle))

  step_of-Sound :
      (e : Event) (s : Server) (c : Session)
      → Fits e
      → IsSound c
      → waits_for (completed e) c.operations ≡ true
      → AllSound s
      → SoundAfter (Sessions.step_of Handler Shared handle accepts regex_match e s (some c))
  step_of-Sound e s c fits here waits sound =
      let rest = waiting-alive (completed e) c here waits in
      rw rest.0 (
        handle_event-Sound e (record c { operations = without (completed e) c.operations }) s fits
          (record { none_left = rest.1; alive = rest.0; array_size = here.array_size }) here.no_text
          sound)

  step-Sound : (e : Event) (s : Server) → IsPossible e s → AllSound s → SoundAfter (step e s)
  unfolding Sessions.step
  step-Sound e s p sound = rw p.stands (
      step_of-Sound e s p.session p.fits
        (All-get_elem? IsSound (session_of e) p.session s.sessions sound p.stands) p.waits sound)

  Step-Sound :
      {s t : Server}
      → Sessions.Step Handler Shared handle accepts regex_match s t
      → AllSound s
      → AllSound t
  Step-Sound {s} (event e p stepped) sound = subst SoundAfter stepped (step-Sound e s p sound)

  start-Sound :
      (s : Server) → Sessions.IsStarted Handler Shared handle accepts regex_match s → AllSound s
  start-Sound s h = subst (All IsSound) (sym h.waits) (new_session-IsSound h.memory h.fits, tt)

  -- In every state that a started server reaches, whatever clients send and whichever operations
  -- fail: a session that is alive waits for exactly one operation, and one that is deleted for none;
  -- its array has 1024 bytes, and outside of a request it keeps no text.
  pub Reach-Sound :
      {s t : Server}
      → Sessions.IsStarted Handler Shared handle accepts regex_match s
      → Sessions.Reach Handler Shared handle accepts regex_match s t
      → AllSound t
  Reach-Sound {s} h start = start-Sound s h
  Reach-Sound h (later r st) = Step-Sound st (Reach-Sound h r)
