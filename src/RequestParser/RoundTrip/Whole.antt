-- ===== src/RequestParser/RoundTrip/Whole.antt =====
-- The end of the headers, the content, and the round trip.
use cs130capstoneproject.Base.{
  ℕ, suc, ◌+◌, ◌-◌, ◌%◌, zero, ◌<◌, ◌≡◌, ◌≢◌, inl, inr, refl, ◌∙◌, Option, none, some, [], ◌∷◌,
  ◌++◌, append_assoc, arith, length, Option-cases,
}
use cs130capstoneproject.Base.Bytes.{Bytes, codes}
use cs130capstoneproject.RequestParser.Request.{Request}
use cs130capstoneproject.RequestParser.Numbers.{u64_mod, stoull, FitsWord, stoull-FitsWord}
use cs130capstoneproject.RequestParser.Path.{infer_path}
use cs130capstoneproject.RequestParser.State.{
  good, undefined, version_h, version_major_start, version_minor_start, header_start, newline_3,
  body, Parser, fresh, get_header_value,
}
use cs130capstoneproject.RequestParser.Step.{await_body, step_in, next_char_handler}
use cs130capstoneproject.RequestParser.Parse.{parse, write_request, get_method, get_header_map}
use cs130capstoneproject.RequestParser.Steps.{parse-more, parse-end}
use cs130capstoneproject.RequestParser.Safety.{infer_path-none_iff}
use cs130capstoneproject.RequestParser.Print.{
  Message, print, content_length, length_of, IsWellFormed,
}
use cs130capstoneproject.RequestParser.RoundTrip.Runs.{
  Reaches, Reaches-stop, Reaches-trans, Reaches-byte, Reaches-forget,
}
use cs130capstoneproject.RequestParser.RoundTrip.Lines.{
  Reaches-method, Reaches-uri, Reaches-protocol, Reaches-major, Reaches-minor, Reaches-headers,
}

-- What `Parse` returns when it stops at `q`, in front of `rest`.
abbrev Stops : Request → Parser → Bytes → Parser → Bytes → Type 0
Stops req p s q rest =
    (r : ℕ) × (parse p req s
      ≡ some (record { result = good; unread = rest; parser = fresh r; request = write_request q }))

-- In the body, with `n` bytes to come.
abbrev in_body : Parser → ℕ → Bytes → Parser
in_body p n b = record p { state = body; remaining = n; body = b }

body_last :
    (p : Parser) (b : Bytes) (c : ℕ)
    → next_char_handler (in_body p 1 b) c
      ≡ some (good, record (in_body p 0 (b ++ c ∷ [])) { raw_request = p.raw_request ++ c ∷ [] })
unfolding next_char_handler step_in
body_last p b c = refl

body_more :
    (p : Parser) (b : Bytes) (c n : ℕ)
    → suc (suc n) < u64_mod
    → next_char_handler (in_body p (suc (suc n)) b) c
      ≡ some (
        undefined,
        record (in_body p (suc n) (b ++ c ∷ [])) { raw_request = p.raw_request ++ c ∷ [] },
      )
unfolding next_char_handler step_in
body_more p b c n small =
    let left : (suc (suc n) + u64_mod - 1) % u64_mod ≡ suc n = omega arith in ground (arith, left)

abbrev at_newline_3 : Parser → Parser
at_newline_3 p = record p { state = newline_3; body = [] }

newline_3-step :
    (p : Parser) (o : Option ℕ)
    → stoull (get_header_value p.headers (codes "Content-Length")) ≡ o
    → next_char_handler (at_newline_3 p) b'\n'
      ≡ await_body (record (at_newline_3 p) { raw_request = p.raw_request ++ b'\n' ∷ [] }) o
unfolding next_char_handler step_in
newline_3-step p o e = rw e

newline_3-body :
    (p : Parser) (n : ℕ)
    → stoull (get_header_value p.headers (codes "Content-Length")) ≡ some (suc n)
    → next_char_handler (at_newline_3 p) b'\n'
      ≡ some
          (undefined, record (in_body p (suc n) []) { raw_request = p.raw_request ++ b'\n' ∷ [] })
newline_3-body p n e = newline_3-step p _ e ∙ ground arith

module _ (req : Request) where
  Stops-body :
      (s : Bytes) (p : Parser) (b rest : Bytes)
      → s ≢ []
      → length s < u64_mod
      → Stops req (in_body p (length s) b) (s ++ rest) (record p { body = b ++ s }) rest
  Stops-body [] p b rest ne small = absurd (ne refl)
  Stops-body (c ∷ []) p b rest ne small =
      (0, parse-end _ req c rest good _ (λ x. cc) (body_last p b c))
  Stops-body (c ∷ d ∷ s) p b rest ne small =
      let q = record p { raw_request = p.raw_request ++ c ∷ [] } in
      let (r, later) = Stops-body (d ∷ s) q (b ++ c ∷ []) rest (λ x. cc) (omega arith) in
      (r, parse-more _ req c _ _ (body_more p b c (length s) small) ∙ rw append_assoc at later)

  Stops-newline_3 :
      (p : Parser) (s rest : Bytes) (o : Option ℕ)
      → stoull (get_header_value p.headers (codes "Content-Length")) ≡ o
      → FitsWord o
      → length s ≡ length_of o
      → Stops req (at_newline_3 p) (b'\n' ∷ (s ++ rest)) (record p { body = s }) rest
  Stops-newline_3 p [] rest none e w h =
      (_, parse-end _ req b'\n' rest good _ (λ x. cc) (newline_3-step p none e))
  Stops-newline_3 p (c ∷ s) rest none e w h = absurd (omega arith)
  Stops-newline_3 p [] rest (some zero) e w h =
      (_, parse-end _ req b'\n' rest good _ (λ x. cc) (newline_3-step p (some 0) e))
  Stops-newline_3 p [] rest (some (suc n)) e w h = absurd (omega arith)
  Stops-newline_3 p (c ∷ s) rest (some n) e w h =
      let q = record p { raw_request = p.raw_request ++ b'\n' ∷ [] } in
      let (r, later) = Stops-body (c ∷ s) q [] rest (λ x. cc) (omega arith) in
      (r, parse-more _ req b'\n' _ _ (newline_3-body p (length s) (rw (← h) at e)) ∙ later)

  Stops-trans :
      {p q : Parser} {s t rest : Bytes} (u : Parser)
      → Reaches req p s q t
      → ((raw : Bytes) → Stops req (record q { raw_request = raw }) t u rest)
      → Stops req p s u rest
  Stops-trans u a f = let (r, e) = f a.raw in (r, a.reads ∙ e)

  Stops-content :
      (p : Parser) (s rest : Bytes)
      → length s ≡ content_length p.headers
      → Stops req
          (record p { state = header_start; body = [] })
          (b'\r' ∷ b'\n' ∷ (s ++ rest))
          (record p { body = s })
          rest
  unfolding next_char_handler step_in
  Stops-content p s rest h =
      Stops-trans (record p { body = s })
        (Reaches-byte req refl (Reaches-stop req (at_newline_3 p) _ (b'\n' ∷ (s ++ rest))))
        (λ raw.
          Stops-newline_3 (record p { raw_request = raw }) s rest _ refl
            (stoull-FitsWord (get_header_value p.headers (codes "Content-Length"))) h)

-- The request line, with the path that is inferred from its URI.
module _ (req : Request) (r : ℕ) (m : Message) (path : Bytes) where
  abbrev after_uri : Parser
  after_uri = record (fresh r) { state = version_h; path = path; method = m.method; uri = m.uri }

  abbrev after_protocol : Parser
  after_protocol = record after_uri { state = version_major_start; version = codes "HTTP/" }

  abbrev after_major : Parser
  after_major = record after_uri {
    state = version_minor_start;
    version = (codes "HTTP/" ++ m.major) ++ b'.' ∷ [];
  }

  abbrev after_line : Parser
  after_line = record after_uri { state = header_start; version = after_major.version ++ m.minor }

  Reaches-line :
      (rest : Bytes)
      → IsWellFormed m
      → infer_path [] m.uri ≡ some path
      → Reaches req
          (fresh r)
          (m.method
            ++ (b' '
                ∷ (m.uri
                    ++ (b' '
                        ∷ b'H'
                        ∷ b'T'
                        ∷ b'T'
                        ∷ b'P'
                        ∷ b'/'
                        ∷ (m.major ++ (b'.' ∷ (m.minor ++ (b'\r' ∷ b'\n' ∷ rest))))))))
          after_line
          rest
  Reaches-line rest w e = Reaches-trans req (Reaches-method req r m.method _ w.method) λ r1.
      Reaches-trans req
        (Reaches-forget req after_uri r1 (
          Reaches-uri req (record (fresh r) { method = m.method; raw_request = r1 }) m.uri path _
            w.uri e))
        λ r2.
          Reaches-trans req
            (Reaches-forget req after_protocol r2
              (Reaches-protocol req (record after_line { raw_request = r2 }) _))
            λ r3.
              Reaches-trans req
                (Reaches-forget req after_major r3 (
                  Reaches-major req (record after_line { raw_request = r3 }) (codes "HTTP/") m.major
                    _ w.major))
                λ r4. Reaches-forget req after_line r4 (
                  Reaches-minor req (record after_line { raw_request = r4 })
                    ((codes "HTTP/" ++ m.major) ++ b'.' ∷ []) m.minor rest w.minor)

-- The request that a message describes.
abbrev pub message_request : Message → Request
message_request m = record {
  method = get_method m.method;
  uri = m.uri;
  headers = get_header_map m.headers;
  body = m.content;
  version = (codes "HTTP/" ++ m.major) ++ b'.' ∷ m.minor;
}

parse-print-path :
    (r : ℕ) (req : Request) (m : Message) (path rest : Bytes)
    → IsWellFormed m
    → infer_path [] m.uri ≡ some path
    → (r' : ℕ) × (parse (fresh r) req (print m rest)
        ≡ some (record {
          result = good;
          unread = rest;
          parser = fresh r';
          request = message_request m;
        }))
parse-print-path r req m path rest w e =
    let end = record (after_line req r m path) { headers = m.headers; body = m.content } in
    let (r', stops) = Stops-trans req end (Reaches-line req r m path _ w e) (λ r1.
      Stops-trans req end
        (Reaches-forget req (record (after_line req r m path) { headers = m.headers }) r1
          (Reaches-headers req m.headers (record (after_line req r m path) { raw_request = r1 }) []
            _ w.headers))
        (λ r2. Stops-content req (record end { raw_request = r2 }) m.content rest w.content)) in
    (r', rw append_assoc at stops)

-- A well-formed request is parsed as what it says, whatever the request object held and whatever
-- follows, of which nothing is consumed; the parser is then as good as new.
pub parse-print :
    (r : ℕ) (req : Request) (m : Message) (rest : Bytes)
    → IsWellFormed m
    → (r' : ℕ) × (parse (fresh r) req (print m rest)
        ≡ some (record {
          result = good;
          unread = rest;
          parser = fresh r';
          request = message_request m;
        }))
parse-print r req m rest w = elim (Option-cases (infer_path [] m.uri)) [
  | inl e ↦ absurd (w.uri.0 ((infer_path-none_iff m.uri).0 e))
  | inr (path, e) ↦ parse-print-path r req m path rest w e
]
