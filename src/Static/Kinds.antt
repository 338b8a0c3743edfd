-- ===== src/Static/Kinds.antt =====
-- What a file in the root of a location is sent as, told without the handler: the medium, the length
-- and the body of the response.
use cs130capstoneproject.Base.{
  ℕ, ◌<◌, ◌≡◌, refl, ap, ◌∙◌, inl, inr, true, false, some, List, [], ◌∷◌, ◌++◌, ◌==◌, arith, All,
  length, Bool-cases,
}
use cs130capstoneproject.Base.Bytes.{Bytes, codes, equal}
use cs130capstoneproject.Base.Int.{ℤ, pos}
use cs130capstoneproject.Base.Map.{lookup, lookup-assign}
use cs130capstoneproject.RequestParser.Numbers.{u64_mod, stoull}
use cs130capstoneproject.RequestParser.HeaderMap.{or_empty}
use cs130capstoneproject.Http.Decimal.{stoull-to_string}
use cs130capstoneproject.Http.Response.{Response}
use cs130capstoneproject.Static.Files.{join_lines, text_response, binary_response}
use cs130capstoneproject.Static.Answers.{length-join_lines}
use cs130capstoneproject.Static.Sent.{file_response}

-- What a file is sent as.
pub data Kind : Type 0 where
  text png_image jpg_image other_bytes : Kind

-- The type of the names of a kind.
abbrev pub type_of : Kind → ℤ
type_of text = pos 1
type_of png_image = pos 2
type_of jpg_image = pos 3
type_of other_bytes = pos 4

-- The header for the medium, with its value.
abbrev media : Kind → Bytes × Bytes
media text = (codes "Content-Type", codes "text/html; charset=UTF-8")
media png_image = (codes "Content-type", codes "image/png")
media jpg_image = (codes "Content-type", codes "image/jpeg")
media other_bytes = (codes "Content-type", codes "application/octet-stream")

-- Lines, each with its end, and without.
abbrev ended : List Bytes → Bytes
ended [] = []
ended (l ∷ ls) = l ++ b'\n' ∷ ended ls

abbrev joined : List Bytes → Bytes
joined [] = []
joined (l ∷ ls) = l ++ joined ls

abbrev IsLine : Bytes → Type 0
IsLine l = All (λ b. (b == b'\n') ≡ false) l

-- The content is lines with ends and a last one without, and the body is these without the ends.
pub record IsJoined (content body : Bytes) : Type 0 where
  pub lines : List Bytes
  pub last : Bytes
  pub are_lines : All IsLine lines
  pub is_line : IsLine last
  pub apart : content ≡ ended lines ++ last
  pub together : body ≡ joined lines ++ last

abbrev IsBody : Kind → Bytes → Bytes → Type 0
IsBody text content body = IsJoined content body
IsBody _ content body = body ≡ content

-- The response to a request for a file, by its kind.
pub record IsSentAs (kind : Kind) (content : Bytes) (res : Response) : Type 0 where
  pub ok : res.code ≡ 200
  pub length_told :
      stoull (or_empty (lookup (codes "Content-Length") res.headers)) ≡ some (length res.body)
  pub medium : lookup (media kind).0 res.headers ≡ some (media kind).1
  pub body : IsBody kind content res.body

-- A byte before the first line.
first_byte :
    (c : ℕ) (content body last : Bytes) (ls : List Bytes)
    → (c == b'\n') ≡ false
    → All IsLine ls
    → IsLine last
    → content ≡ ended ls ++ last
    → body ≡ joined ls ++ last
    → IsJoined (c ∷ content) (c ∷ body)
first_byte c content body last [] plain hs h apart together = record {
  lines = [];
  last = c ∷ last;
  are_lines = tt;
  is_line = (plain, h);
  apart = ap (◌∷◌ c) apart;
  together = ap (◌∷◌ c) together;
}
first_byte c content body last (l ∷ ls) plain (hl, hs) h apart together = record {
  lines = (c ∷ l) ∷ ls;
  last = last;
  are_lines = ((plain, hl), hs);
  is_line = h;
  apart = ap (◌∷◌ c) apart;
  together = ap (◌∷◌ c) together;
}

line_end : (c : ℕ) → (c == b'\n') ≡ true → c ≡ b'\n'
line_end c h = ground arith

-- The end of an empty line.
first_end :
    (c : ℕ) (content body : Bytes) → c ≡ b'\n' → IsJoined content body → IsJoined (c ∷ content) body
first_end c content body e j = record {
  lines = [] ∷ j.lines;
  last = j.last;
  are_lines = (tt, j.are_lines);
  is_line = j.is_line;
  apart = ap (λ x. x ∷ content) e ∙ ap (◌∷◌ b'\n') j.apart;
  together = j.together;
}

join_lines-IsJoined : (content : Bytes) → IsJoined content (join_lines content)
unfolding join_lines
join_lines-IsJoined [] = record {
  lines = [];
  last = [];
  are_lines = tt;
  is_line = tt;
  apart = refl;
  together = refl;
}
join_lines-IsJoined (c ∷ content) =
    let j = join_lines-IsJoined content in
    elim (Bool-cases (c == b'\n')) [
      | inl end ↦ rw end (first_end c content (join_lines content) (line_end c end) j)
      | inr other ↦ rw other (
          first_byte c content (join_lines content) j.last j.lines other j.are_lines j.is_line
            j.apart j.together)
    ]

-- Every file of a kind is sent as it should be, if its length fits 64 bits.
pub file_response-IsSentAs :
    (kind : Kind) (content : Bytes)
    → length content < u64_mod
    → (res : Response) × (file_response (type_of kind) content ≡ some res)
      × IsSentAs kind content res
unfolding equal
file_response-IsSentAs text content h = (
  text_response (join_lines content),
  refl,
  record {
    ok = refl;
    length_told =
        simp lookup-assign (
          stoull-to_string (length (join_lines content))
            (omega (arith, length-join_lines content)));
    medium = simp lookup-assign;
    body = join_lines-IsJoined content;
  },
)
file_response-IsSentAs png_image content h = (
  binary_response (pos 2) content,
  refl,
  record {
    ok = refl;
    length_told = simp lookup-assign (stoull-to_string (length content) h);
    medium = simp lookup-assign;
    body = refl;
  },
)
file_response-IsSentAs jpg_image content h = (
  binary_response (pos 3) content,
  refl,
  record {
    ok = refl;
    length_told = simp lookup-assign (stoull-to_string (length content) h);
    medium = simp lookup-assign;
    body = refl;
  },
)
file_response-IsSentAs other_bytes content h = (
  binary_response (pos 4) content,
  refl,
  record {
    ok = refl;
    length_told = simp lookup-assign (stoull-to_string (length content) h);
    medium = simp lookup-assign;
    body = refl;
  },
)
