-- ===== src/Dispatcher/Writes.antt =====
-- What the session's socket is asked to write for a response: the writes in the order in which they
-- are asked for. When the socket gets to them, and whether a write is overtaken, is not modelled.
use cs130capstoneproject.Base.{
  ℕ, zero, suc, ◌+◌, ◌-◌, ◌≤◌, ◌<◌, ◌≡◌, refl, ap, ◌∙◌, List, [], ◌∷◌, ◌++◌, append-nil, arith,
  length, take, drop, Bool-cases, inl, inr, ltb, Option, none, some, All, false, ◌==◌, append_assoc,
  true, if◌then◌else◌,
}
use mathlib.Core.Path.{subst, sym}
use mathlib.Core.Option.{some_inj}
use cs130capstoneproject.Base.Bytes.{Bytes}
use cs130capstoneproject.Http.Response.{Response}
use cs130capstoneproject.Base.Bytes.{codes}
use cs130capstoneproject.Base.Map.{Map}
use cs130capstoneproject.Http.Decimal.{decimal, to_string}
use cs130capstoneproject.Http.Utils.{format_header}
use cs130capstoneproject.Dispatcher.{
  Write, async_write, write_some, status_line, header_lines, head_of, write_loop, dispatch,
}

-- The codes that have a status line of their own, with their reasons.
abbrev reasons : List (ℕ × Bytes)
reasons =
    (200, codes "OK")
    ∷ (201, codes "Created")
    ∷ (202, codes "Accepted")
    ∷ (204, codes "No Content")
    ∷ (301, codes "Moved Permanently")
    ∷ (302, codes "Moved Temporarily")
    ∷ (304, codes "Not Modified")
    ∷ (400, codes "Bad Request")
    ∷ (401, codes "Unauthorized")
    ∷ (403, codes "Forbidden")
    ∷ (404, codes "Not Found")
    ∷ (500, codes "Internal Server Error")
    ∷ (501, codes "Not Implemented")
    ∷ (502, codes "Bad Gateway")
    ∷ (503, codes "Service Unavailable")
    ∷ []

abbrev reason_of : ℕ → List (ℕ × Bytes) → Option Bytes
reason_of code [] = none
reason_of code ((k, reason) ∷ rs) =
    let rest = reason_of code rs in if code == k then some reason else rest

abbrev line_with : ℕ → Bytes → Bytes
line_with code reason = codes "HTTP/1.1 " ++ (to_string code ++ (b' ' ∷ (reason ++ codes "\r\n")))

-- The first line, by the reason of a code; a code without one is sent as 500.
abbrev first_line : ℕ → Option Bytes → Bytes
first_line code (some reason) = line_with code reason
first_line code none = line_with 500 (codes "Internal Server Error")

-- A name, a colon, a space and a value on a line, for every header.
abbrev fields : Map Bytes → Bytes
fields [] = []
fields ((name, value) ∷ hs) = name ++ (codes ": " ++ (value ++ (codes "\r\n" ++ fields hs)))

-- The text of a response: the first line, the headers, an empty line and the body.
abbrev pub response_text : Response → Bytes
response_text r =
    first_line r.code (reason_of r.code reasons) ++ (fields r.headers ++ (codes "\r\n" ++ r.body))

reasons-lines : All (λ e. status_line e.0 ≡ line_with e.0 e.1) reasons
unfolding status_line to_string decimal
reasons-lines = (
  refl,
  (
    refl,
    (
      refl,
      (
        refl,
        (refl, (refl, (refl, (refl, (refl, (refl, (refl, (refl, (refl, (refl, (refl, tt))))))))))),
      ),
    ),
  ),
)

equal_codes : (a b : ℕ) → (a == b) ≡ true → a ≡ b
equal_codes a b h = ground arith

reason_of-All :
    (P : ℕ → Bytes → Type 0) (code : ℕ) (reason : Bytes) (rs : List (ℕ × Bytes))
    → All (λ e. P e.0 e.1) rs
    → reason_of code rs ≡ some reason
    → P code reason
reason_of-All P code reason [] h e = cc
reason_of-All P code reason ((k, r) ∷ rs) (h, hs) e = elim (Bool-cases (code == k)) [
  | inl same ↦
      subst (λ k. P k reason) (sym (equal_codes code k same))
        (subst (P k) (some_inj.0 (rw same at e)) h)
  | inr other ↦ reason_of-All P code reason rs hs (rw other at e)
]

reason_of-none :
    (code : ℕ) (rs : List (ℕ × Bytes))
    → reason_of code rs ≡ none
    → All (λ e. (code == e.0) ≡ false) rs
reason_of-none code [] h = tt
reason_of-none code ((k, r) ∷ rs) h = elim (Bool-cases (code == k)) [
  | inl same ↦ cc (rw same at h)
  | inr other ↦ (other, reason_of-none code rs (rw other at h))
]

status_line-unnamed :
    (code : ℕ)
    → reason_of code reasons ≡ none
    → status_line code ≡ line_with 500 (codes "Internal Server Error")
unfolding status_line to_string
status_line-unnamed code h =
    let (a, (b, (c, (d, (e, (f, (g, (h, (i, (j, (k, (l, (m, (n, (o, _))))))))))))))) =
      reason_of-none code reasons h in
    rw (a, b, c, d, e, f, g, h, i, j, k, l, m, n, o) refl

status_line-first_line :
    (code : ℕ) (reason : Option Bytes)
    → reason_of code reasons ≡ reason
    → status_line code ≡ first_line code reason
status_line-first_line code none e = status_line-unnamed code e
status_line-first_line code (some reason) e =
    reason_of-All (λ k r. status_line k ≡ line_with k r) code reason reasons reasons-lines e

header_lines-fields : (hs : Map Bytes) (s : Bytes) → header_lines hs ++ s ≡ fields hs ++ s
unfolding header_lines format_header
header_lines-fields [] s = refl
header_lines-fields ((name, value) ∷ hs) s = simp (append_assoc, header_lines-fields hs s)

head_of-response_text : (r : Response) → head_of r ++ r.body ≡ response_text r
unfolding head_of
head_of-response_text r =
    rw
      (
        append_assoc,
        append_assoc,
        header_lines-fields,
        status_line-first_line r.code (reason_of r.code reasons) refl,
      )
      refl

-- The bytes that the writes carry, in the order in which they are asked for.
abbrev pub bytes_of : List Write → Bytes
bytes_of [] = []
bytes_of (async_write s ∷ ws) = s ++ bytes_of ws
bytes_of (write_some s ∷ ws) = s ++ bytes_of ws

take-append-drop : (n : ℕ) (s : Bytes) → take n s ++ drop n s ≡ s
take-append-drop zero s = refl
take-append-drop (suc n) [] = refl
take-append-drop (suc n) (c ∷ s) = ap (◌∷◌ c) (take-append-drop n s)

length-drop : (n : ℕ) (s : Bytes) → length (drop n s) ≡ length s - n
length-drop zero s = omega arith
length-drop (suc n) [] = omega arith
length-drop (suc n) (c ∷ s) = omega (arith, length-drop n s)

module _ (accepts : ℕ → ℕ → ℕ)
    (takes_one : (total left : ℕ) → 0 < left → 0 < accepts total left) where
  bytes_of-write_loop :
      (f total : ℕ) (s : Bytes) → length s ≤ f → bytes_of (write_loop accepts f total s) ≡ s
  unfolding write_loop
  bytes_of-write_loop zero total [] h = refl
  bytes_of-write_loop zero total (c ∷ s) h = absurd (omega arith)
  bytes_of-write_loop (suc f) total [] h = refl
  bytes_of-write_loop (suc f) total (c ∷ s) h =
      let n = accepts total (length (c ∷ s)) in
      let some_taken = takes_one total (length (c ∷ s)) (omega arith) in
      ap (λ t. take n (c ∷ s) ++ t)
        (bytes_of-write_loop f (total + n) (drop n (c ∷ s)) (omega (arith, length-drop n (c ∷ s))))
      ∙ take-append-drop n (c ∷ s)

  -- If the socket takes at least one byte of what it is offered, the loop ends, and the writes that it
  -- is asked for carry, in the order in which they are asked for, the first line of the code with its
  -- reason (500 for a code without one), a line for each header, the empty line and the whole body, for
  -- every type of content and however the socket splits the body.
  pub bytes_of-dispatch : (r : Response) → bytes_of (dispatch accepts r) ≡ response_text r
  unfolding dispatch
  bytes_of-dispatch r = elim (Bool-cases (ltb r.src_type 2)) [
    | inl plain ↦ rw plain (append-nil (head_of r ++ r.body) ∙ head_of-response_text r)
    | inr binary ↦ rw binary (
        ap (λ t. head_of r ++ t) (bytes_of-write_loop (length r.body) 0 r.body (omega arith))
        ∙ head_of-response_text r)
  ]
