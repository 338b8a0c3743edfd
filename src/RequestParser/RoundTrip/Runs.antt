-- ===== src/RequestParser/RoundTrip/Runs.antt =====
-- What the parser does over a stretch of input, composed from its rounds.
use cs130capstoneproject.Base.{
  ℕ, ◌≡◌, refl, ◌∙◌, some, [], ◌∷◌, ◌++◌, append-nil, append_assoc, All,
}
use cs130capstoneproject.Base.Bytes.{Bytes}
use cs130capstoneproject.RequestParser.Request.{Request}
use cs130capstoneproject.RequestParser.State.{undefined, Parser}
use cs130capstoneproject.RequestParser.Step.{next_char_handler}
use cs130capstoneproject.RequestParser.Parse.{parse}
use cs130capstoneproject.RequestParser.Steps.{parse-more}

module _ (req : Request) where
  -- The parser reads `s` down to `rest` and is then `q`, whatever `raw_request_` holds.
  pub record Reaches (p : Parser) (s : Bytes) (q : Parser) (rest : Bytes) : Type 0 where
    pub raw : Bytes
    pub reads : parse p req s ≡ parse (record q { raw_request = raw }) req rest

  pub Reaches-stop : (p : Parser) (raw s : Bytes) → Reaches (record p { raw_request = raw }) s p s
  Reaches-stop p raw s = record { raw = raw; reads = refl }

  pub Reaches-trans :
      {p q u : Parser} {s t v : Bytes}
      → Reaches p s q t
      → ((raw : Bytes) → Reaches (record q { raw_request = raw }) t u v)
      → Reaches p s u v
  Reaches-trans r f = record { raw = (f r.raw).raw; reads = r.reads ∙ (f r.raw).reads }

  pub Reaches-byte :
      {p q u : Parser} {c : ℕ} {s v : Bytes}
      → next_char_handler p c ≡ some (undefined, q)
      → Reaches q s u v
      → Reaches p (c ∷ s) u v
  Reaches-byte {p} {q} {u} {c} {s} step r = record {
    raw = r.raw;
    reads = parse-more p req c s q step ∙ r.reads;
  }

  -- A run of bytes of one kind: `at m` is the parser that has read `m` of it.
  parse-All :
      (P : ℕ → Type 0) (at : Bytes → Parser)
      → ((m : Bytes) (c : ℕ)
          → P c
          → next_char_handler (at m) c ≡ some (undefined, at (m ++ c ∷ [])))
      → (s m rest : Bytes) → All P s
      → parse (at m) req (s ++ rest) ≡ parse (at (m ++ s)) req rest
  parse-All P at step [] m rest h = rw append-nil
  parse-All P at step (c ∷ s) m rest (p, h) =
      parse-more (at m) req c (s ++ rest) _ (step m c p)
      ∙ parse-All P at step s (m ++ c ∷ []) rest h
      ∙ rw append_assoc

  pub Reaches-All :
      (P : ℕ → Type 0) (at : Bytes → Parser)
      → ((m : Bytes) (c : ℕ)
          → P c
          → next_char_handler (at m) c ≡ some (undefined, at (m ++ c ∷ [])))
      → (s m rest : Bytes) → All P s
      → Reaches (at m) (s ++ rest) (at (m ++ s)) rest
  Reaches-All P at step s m rest h = record {
    raw = (at (m ++ s)).raw_request;
    reads = parse-All P at step s m rest h;
  }

  pub Reaches-forget :
      {p : Parser} {s rest : Bytes} (q : Parser) (raw : Bytes)
      → Reaches p s (record q { raw_request = raw }) rest
      → Reaches p s q rest
  Reaches-forget q raw r = record { raw = r.raw; reads = r.reads }
