-- ===== src/Server/Sessions/Effects.antt =====
-- What the handlers of a session leave behind: the operations that they start, and the text of the
-- session.
use cs130capstoneproject.Base.{
  ℕ, zero, suc, ◌+◌, ◌≡◌, refl, Bool, true, false, not, ◌&&◌, ◌||◌, Option, none, some, List, [],
  ◌∷◌, ◌++◌, ◌==◌, map, arith, length, drop, if◌then◌else◌, ltb,
}
use cs130capstoneproject.Base.Bytes.{Bytes}
use cs130capstoneproject.RequestParser.Request.{Request}
use cs130capstoneproject.RequestParser.Parse.{Parsed, parse}
use cs130capstoneproject.Http.Response.{Response}
use cs130capstoneproject.Http.Utils.{complete, filter_crlf}
use cs130capstoneproject.Handlers.Log.{Log}
use cs130capstoneproject.Handlers.Echo.{get_response}
use cs130capstoneproject.Dispatcher.{Write, async_write, write_some, head_of, write_loop, dispatch}
use cs130capstoneproject.Session.Checks.{
  check_header, check_request_line, check_request, knows_method,
}
use cs130capstoneproject.Session.Tasks
use cs130capstoneproject.Session.Reading
use cs130capstoneproject.Session.Reading.{Action, write, clear, read_some, deleted, handle_read}
use cs130capstoneproject.Session.Buffer.{max_length, length-nulls}
use cs130capstoneproject.Server.Sessions.State.{Session, perform, perform_all}

-- The operations that actions start.
abbrev pub starts : List Action → ℕ
starts [] = 0
starts (write (async_write s) ∷ actions) = suc (starts actions)
starts (write (write_some s) ∷ actions) = starts actions
starts (clear ∷ actions) = starts actions
starts (read_some ∷ actions) = suc (starts actions)
starts (deleted ∷ actions) = starts actions

abbrev pub deletes : List Action → Bool
deletes [] = false
deletes (deleted ∷ actions) = true
deletes (_ ∷ actions) = deletes actions

-- One operation is started, or the session is deleted.
abbrev pub IsNext : List Action → Type 0
IsNext actions = starts actions ≡ (if deletes actions then 0 else 1)

pub starts-perform_all :
    (actions : List Action) (c : Session)
    → length (perform_all actions c).operations ≡ starts actions + length c.operations
starts-perform_all [] c = omega arith
starts-perform_all (write (async_write s) ∷ actions) c =
    omega (arith, starts-perform_all actions (perform (write (async_write s)) c))
starts-perform_all (write (write_some s) ∷ actions) c = starts-perform_all actions c
starts-perform_all (clear ∷ actions) c = starts-perform_all actions (perform clear c)
starts-perform_all (read_some ∷ actions) c =
    omega (arith, starts-perform_all actions (perform read_some c))
starts-perform_all (deleted ∷ actions) c = starts-perform_all actions (perform deleted c)

-- What one action keeps, all keep.
pub perform_all-ind {ℓ} :
    (P : Session → Type ℓ)
    → ((a : Action) (c : Session) → P c → P (perform a c))
    → (actions : List Action) (c : Session) → P c
    → P (perform_all actions c)
perform_all-ind P each [] c h = h
perform_all-ind P each (a ∷ actions) c h = perform_all-ind P each actions (perform a c) (each a c h)

perform-dead : (a : Action) (c : Session) → c.alive ≡ false → (perform a c).alive ≡ false
perform-dead (write (async_write s)) c h = h
perform-dead (write (write_some s)) c h = h
perform-dead clear c h = h
perform-dead read_some c h = h
perform-dead deleted c h = refl

dead-perform_all :
    (actions : List Action) (c : Session) → c.alive ≡ false → (perform_all actions c).alive ≡ false
dead-perform_all = perform_all-ind (λ c. c.alive ≡ false) perform-dead

pub alive-perform_all :
    (actions : List Action) (c : Session)
    → c.alive ≡ true
    → (perform_all actions c).alive ≡ not (deletes actions)
alive-perform_all [] c h = h
alive-perform_all (write (async_write s) ∷ actions) c h =
    alive-perform_all actions (perform (write (async_write s)) c) h
alive-perform_all (write (write_some s) ∷ actions) c h = alive-perform_all actions c h
alive-perform_all (clear ∷ actions) c h = alive-perform_all actions (perform clear c) h
alive-perform_all (read_some ∷ actions) c h = alive-perform_all actions (perform read_some c) h
alive-perform_all (deleted ∷ actions) c h = dead-perform_all actions (perform deleted c) refl

abbrev HasSize : Session → Type 0
HasSize c = length c.array ≡ max_length

perform-HasSize : (a : Action) (c : Session) → HasSize c → HasSize (perform a c)
perform-HasSize (write (async_write s)) c h = length-nulls max_length
perform-HasSize (write (write_some s)) c h = h
perform-HasSize clear c h = length-nulls max_length
perform-HasSize read_some c h = h
perform-HasSize deleted c h = h

pub array-perform_all :
    (actions : List Action) (c : Session)
    → length c.array ≡ max_length
    → length (perform_all actions c).array ≡ max_length
array-perform_all = perform_all-ind HasSize perform-HasSize

-- A session that keeps no text outside of a request.
abbrev pub HasNoText : Session → Type 0
HasNoText c = c.request_start ≡ false → c.http_body ≡ []

perform-HasNoText : (a : Action) (c : Session) → HasNoText c → HasNoText (perform a c)
perform-HasNoText (write (async_write s)) c h = h
perform-HasNoText (write (write_some s)) c h = h
perform-HasNoText clear c h = h
perform-HasNoText read_some c h = h
perform-HasNoText deleted c h = h

pub text-perform_all :
    (actions : List Action) (c : Session) → HasNoText c → HasNoText (perform_all actions c)
text-perform_all = perform_all-ind HasNoText perform-HasNoText

if_both {ℓ κ} :
    {A : Type ℓ} (P : A → Type κ) (b : Bool) {x y : A} → P x → P y → P (if b then x else y)
if_both P true p q = p
if_both P false p q = q

module _ (Handler : Type 0) (Shared : Type 0)
    (handle : Handler → Request → Log × Shared → Option (Response × Log × Shared))
    (accepts : ℕ → ℕ → ℕ) where
  starts-write_loop :
      (f total : ℕ) (s : Bytes)
      → (starts (map write (write_loop accepts f total s)) ≡ 0)
        × (deletes (map write (write_loop accepts f total s)) ≡ false)
  unfolding write_loop
  starts-write_loop zero total s = (refl, refl)
  starts-write_loop (suc f) total [] = (refl, refl)
  starts-write_loop (suc f) total (c ∷ s) =
      let n = accepts total (length (c ∷ s)) in starts-write_loop f (total + n) (drop n (c ∷ s))

  dispatch-IsNext : (r : Response) → IsNext (map write (dispatch accepts r))
  unfolding dispatch
  dispatch-IsNext r =
      let loop = starts-write_loop (length r.body) 0 r.body in
      if_both (λ ws. IsNext (map write ws)) (ltb r.src_type 2)
        {x = async_write (head_of r ++ r.body) ∷ []} refl (rw (loop.0, loop.1) refl)

  module _ (regex_match : Bytes → Bytes → Bool) where
    abbrev World : Type 0
    World = Tasks.World Handler Shared handle accepts

    abbrev Handled : Type 0
    Handled = Option (List Action × World)

    -- The session goes on or is deleted, and it keeps no text outside of a request.
    abbrev pub Settled : Handled → Type 0
    Settled none = Unit
    Settled (some (actions, w)) = IsNext actions × (w.request_start ≡ false → w.http_body ≡ [])

    abbrev added : Bytes → World → World
    added = Reading.add_text Handler Shared handle accepts regex_match

    abbrev written : Option (Bytes × List Write × World) → Handled
    written = Reading.written Handler Shared handle accepts regex_match

    finish_request-Settled :
        (o : Option (Response × World))
        → Settled (written (Tasks.finish_request Handler Shared handle accepts o))
    finish_request-Settled none = tt
    finish_request-Settled (some (r, w)) = (dispatch-IsNext r, λ e. refl)

    answer_with-Settled :
        (w : World) (o : Option (Bool × Bytes))
        → Settled (written (Tasks.answer_with Handler Shared handle accepts w o))
    answer_with-Settled w none = tt
    answer_with-Settled w (some (found, key)) = finish_request-Settled _

    answer_parsed-Settled :
        (w : World) (o : Option Parsed)
        → Settled (written (Tasks.answer_parsed Handler Shared handle accepts w o))
    answer_parsed-Settled w none = tt
    answer_parsed-Settled w (some d) = answer_with-Settled _ _

    good-Settled : (w : World) → Settled (Reading.good Handler Shared handle accepts regex_match w)
    unfolding Tasks.good_request
    good-Settled w = answer_parsed-Settled w (parse w.parser w.request w.http_body)

    echoed-Settled :
        (w : World) (o : Option Parsed) (a : Option Bytes)
        → Settled (Reading.echoed Handler Shared handle accepts regex_match w o a)
    echoed-Settled w none a = tt
    echoed-Settled w (some d) none = tt
    echoed-Settled w (some d) (some a) = (refl, λ e. refl)

    bad-Settled :
        (w : World) → Settled (Reading.bad_request Handler Shared handle accepts regex_match w)
    unfolding Reading.bad_request
    bad-Settled w =
        echoed-Settled w (parse w.parser w.request w.http_body) (get_response w.http_body false)

    read_line-Settled :
        (s : Bytes) (w : World)
        → Settled (Reading.read_line Handler Shared handle accepts regex_match s w)
    read_line-Settled s w =
        if_both Settled (check_request_line regex_match s)
          (if_both Settled (knows_method s) (refl, λ e. cc) (bad-Settled _))
          (if_both Settled (check_header regex_match s) (refl, λ e. cc) (bad-Settled _))

    read_part-Settled :
        (s : Bytes) (n : ℕ) (w : World)
        → (w.request_start ≡ false → w.http_body ≡ [])
        → Settled (Reading.read_part Handler Shared handle accepts regex_match s n w)
    read_part-Settled s n w idle =
        if_both Settled (w.request_start && complete s n)
          (good-Settled (record (added s w) { request_start = false }))
          (if_both Settled (w.request_start || check_request_line regex_match s)
            (read_line-Settled s (added s w))
            (if_both Settled (not w.request_start && (filter_crlf s == 0)) (refl, idle)
              (bad-Settled (added s w))))

    read_text-Settled :
        (s : Bytes) (n : ℕ) (w : World) (o : Option Bool)
        → (w.request_start ≡ false → w.http_body ≡ [])
        → Settled (Reading.read_text Handler Shared handle accepts regex_match s n w o)
    read_text-Settled s n w none idle = tt
    read_text-Settled s n w (some true) idle = good-Settled (added s w)
    read_text-Settled s n w (some false) idle = read_part-Settled s n w idle

    -- Whatever is read, with an error or without, and whatever the session is in: if the handler
    -- returns, it has started one operation, or it has deleted the session and started none; and a
    -- session that is in no request then has no text, if that was so before.
    pub handle_read-Settled :
        (error : Bool) (s : Bytes) (n : ℕ) (w : World)
        → (w.request_start ≡ false → w.http_body ≡ [])
        → Settled (handle_read Handler Shared handle accepts regex_match error s n w)
    unfolding handle_read
    handle_read-Settled true s n w idle = (refl, idle)
    handle_read-Settled false s n w idle =
        if_both Settled (not w.request_start && not (complete s n))
          (read_text-Settled s n w (check_request regex_match s) idle)
          (read_part-Settled s n w idle)
