-- ===== src/Session/Leak.antt =====
-- The parser is shared by all sessions: what a text that was refused does to the next request.
use cs130capstoneproject.Base.{
  ℕ, ◌≡◌, refl, ap, ◌∙◌, sym, Bool, false, Option, none, some, List, [], ◌∷◌, ◌++◌, inl, inr,
}
use mathlib.Core.Option.{some_inj}
use cs130capstoneproject.Base.Bytes.{Bytes}
use cs130capstoneproject.RequestParser.Request.{Request}
use cs130capstoneproject.RequestParser.State.{undefined, Parser}
use cs130capstoneproject.RequestParser.Step.{next_char_handler}
use cs130capstoneproject.RequestParser.Parse.{Parsed, parse}
use cs130capstoneproject.RequestParser.Steps.{Outcome-cases, parse-fault, parse-more, parse-end}
use cs130capstoneproject.RequestParser.Chunks.{continue, parse-append}
use cs130capstoneproject.Http.Response.{Response}
use cs130capstoneproject.Handlers.Log.{Log}
use cs130capstoneproject.Handlers.Echo.{get_response}
use cs130capstoneproject.Dispatcher.{Write}
use cs130capstoneproject.Session.Tasks
use cs130capstoneproject.Session.Reading
use cs130capstoneproject.Session.Reading.{Action}

-- A parser that waits for more of the request.
abbrev unfinished : Parser → Request → Parsed
unfinished p req = record { result = undefined; unread = []; parser = p; request = req }

-- A text that decides nothing does to the parser the same whatever the request is.
parse-unfinished :
    (p : Parser) (req other : Request) (s : Bytes) (d : Parsed)
    → parse p req s ≡ some d
    → d.result ≡ undefined
    → parse p other s ≡ some (unfinished d.parser other)
unfolding parse
parse-unfinished p req other [] d e h = ap (λ d'. some (unfinished d'.parser other)) (some_inj.0 e)
parse-unfinished p req other (c ∷ s) d e h = elim (Outcome-cases (next_char_handler p c)) [
  | inl fault ↦ cc (parse-fault p req c s fault)
  | inr (inl (q, step)) ↦
      parse-more p other c s q step
      ∙ parse-unfinished q req other s d (sym (parse-more p req c s q step) ∙ e) h
  | inr (inr (r, q, last, step)) ↦
      absurd
        (last (ap (λ d'. d'.result) (some_inj.0 (sym (parse-end p req c s r q last step) ∙ e)) ∙ h))
]

module _ (Handler : Type 0) (Shared : Type 0)
    (handle : Handler → Request → Log × Shared → Option (Response × Log × Shared))
    (accepts : ℕ → ℕ → ℕ) (regex_match : Bytes → Bytes → Bool) where
  abbrev World : Type 0
  World = Tasks.World Handler Shared handle accepts

  abbrev good_request : Bytes → World → Option (Bytes × List Write × World)
  good_request = Tasks.good_request Handler Shared handle accepts

  -- The parser behind a text that was refused.
  echoed-parser :
      (w w' : World) (d : Parsed) (a : Option Bytes) (actions : List Action)
      → Reading.echoed Handler Shared handle accepts regex_match w (some d) a ≡ some (actions, w')
      → w'.parser ≡ d.parser
  echoed-parser w w' d none actions e = cc
  echoed-parser w w' d (some a) actions e = sym (ap (λ x. x.1.parser) (some_inj.0 e))

  bad_request-parser :
      (w w' : World) (d : Parsed) (actions : List Action)
      → parse w.parser w.request w.http_body ≡ some d
      → Reading.bad_request Handler Shared handle accepts regex_match w ≡ some (actions, w')
      → w'.parser ≡ d.parser
  unfolding Reading.bad_request
  bad_request-parser w w' d actions e h =
      echoed-parser w w' d (get_response w.http_body false) actions (rw e at h)

  -- The parser that a request is parsed with is replaced by the one behind the request.
  answer_parsed-parser :
      (v : World) (p : Parser) (o : Option Parsed)
      → Tasks.answer_parsed Handler Shared handle accepts v o
        ≡ Tasks.answer_parsed Handler Shared handle accepts (record v { parser = p }) o
  answer_parsed-parser v p none = refl
  answer_parsed-parser v p (some d) = refl

  -- Where a session refuses a text that leaves `Parse` undecided, the next request that is answered,
  -- in that session or in any other, is answered as if the refused text stood in front of it, before a
  -- parser that is as it was.
  pub good_request-refused_text :
      (w w' v : World) (d : Parsed) (actions : List Action) (text : Bytes)
      → parse w.parser w.request w.http_body ≡ some d
      → d.result ≡ undefined
      → Reading.bad_request Handler Shared handle accepts regex_match w ≡ some (actions, w')
      → v.parser ≡ w'.parser
      → good_request text v ≡ good_request (w.http_body ++ text) (record v { parser = w.parser })
  unfolding Tasks.good_request
  good_request-refused_text w w' v d actions text e undecided h same =
      let parser = same ∙ bad_request-parser w w' d actions e h in
      let parsed =
        parse-append w.parser v.request w.http_body text
        ∙ ap (continue text)
            (parse-unfinished w.parser w.request v.request w.http_body d e undecided) in
      rw (parser, parsed) (answer_parsed-parser v w.parser (parse d.parser v.request text))
