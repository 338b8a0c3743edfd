-- ===== src/Static/Answers.antt =====
-- What the handler of static files answers.
use cs130capstoneproject.Base.{
  ℕ, ◌+◌, ◌<◌, ◌≤◌, ◌≡◌, ◌≢◌, refl, ap, ◌⊎◌, inl, inr, Bool, true, Option, none, some, [], ◌∷◌,
  ◌==◌, arith, ◌&&◌, ◌||◌, length, length-append, Bool-cases,
}
use cs130capstoneproject.Base.Bytes.{Bytes, codes, equal, less, is_digit}
use cs130capstoneproject.Base.Map.{Map, lookup, assign, lookup-assign}
use cs130capstoneproject.Base.Int.{ℤ, pos, pos_part, neg_part}
use cs130capstoneproject.RequestParser.Request.{get, post, Request}
use cs130capstoneproject.RequestParser.Numbers.{u64_mod, stoull}
use cs130capstoneproject.RequestParser.HeaderMap.{or_empty}
use cs130capstoneproject.Http.Decimal.{stoull-to_string}
use cs130capstoneproject.Http.Status
use cs130capstoneproject.Http.Response.{Response}
use cs130capstoneproject.Handlers.Log.{Log, add_record}
use cs130capstoneproject.Static.Types.{config_parser}
use cs130capstoneproject.Static.Paths.{replace_path}
use cs130capstoneproject.Static.Roots.{SameRoots, replace_path-IsFound}
use cs130capstoneproject.Static.Files.{
  FileSystem, Entry, missing, unreadable, file, join_lines, text_entry, text_response,
  binary_response, binary_entry, not_found_response, index_page, get_binary_content, form_response,
  local_path, get_request_line, with_roots, text_at, is_binary, answer_type, Answer, handle_request,
}

-- A request of a method other than GET and POST is undefined behaviour: the number of the method is
-- added to the address of a text of one byte, which is then read.
pub handle_request-methods :
    (fs : FileSystem) (req : Request) (roots : Map Bytes) (log : Log)
    → req.method ≢ get
    → req.method ≢ post
    → handle_request fs req roots log ≡ none
unfolding handle_request get_request_line
handle_request-methods fs req roots log g p = ground arith

-- The length of the body stands in the header, but for the index page.
abbrev pub Announces : Response → Type 0
Announces res =
    (stoull (or_empty (lookup (codes "Content-Length") res.headers)) ≡ some (length res.body))
    ⊎ (stoull (or_empty (lookup (codes "Content-length") res.headers)) ≡ some (length res.body))
    ⊎ (res ≡ index_page)

length-add_record :
    (uri handler : Bytes) (code : ℕ) (log : Log)
    → length (add_record uri handler code log) ≡ length log + 1
unfolding add_record
length-add_record uri handler code log = omega (arith, length-append log)

pub length-join_lines : (s : Bytes) → length (join_lines s) ≤ length s
unfolding join_lines
length-join_lines [] = omega arith
length-join_lines (c ∷ s) = ground (arith, length-join_lines s)

not_found-Announces : Announces not_found_response
unfolding equal
not_found-Announces = inr (
    inl (
      simp lookup-assign (stoull-to_string (length (codes "Error: File Not Found")) (omega arith))))

text-Announces : (body : Bytes) → length body < u64_mod → Announces (text_response body)
unfolding equal
text-Announces body h = inl (simp lookup-assign (stoull-to_string (length body) h))

binary-Announces :
    (t : ℤ) (image : Bytes) → length image < u64_mod → Announces (binary_response t image)
unfolding equal
binary-Announces t image h = inl (simp lookup-assign (stoull-to_string (length image) h))

-- A file whose length fits 64 bits.
abbrev pub IsShort : Entry → Type 0
IsShort (file content) = length content < u64_mod
IsShort _ = Unit

text_entry-Announces : (e : Entry) → IsShort e → Announces (text_entry e)
text_entry-Announces missing h = not_found-Announces
text_entry-Announces unreadable h = text-Announces [] (omega arith)
text_entry-Announces (file content) h =
    text-Announces (join_lines content) (omega (arith, length-join_lines content))

-- A response whose length is announced, and one record more in the log.
abbrev SoundContent : Log → Option (Response × Log) → Type 0
SoundContent log none = ⊥
SoundContent log (some (res, log')) = Announces res × (length log' ≡ length log + 1)

binary_entry-SoundContent :
    (path : Bytes) (t : ℤ) (log : Log) (e : Entry)
    → IsShort e
    → e ≢ unreadable
    → SoundContent log (binary_entry path t log e)
binary_entry-SoundContent path t log missing h readable =
    (not_found-Announces, length-add_record path (codes "StaticHandler") Status.not_found log)
binary_entry-SoundContent path t log unreadable h readable = readable refl
binary_entry-SoundContent path t log (file image) h readable =
    (binary-Announces t image h, length-add_record path (codes "StaticHandler") Status.ok log)

-- An answer, with the same roots.
abbrev pub Sound : Map Bytes → Log → Answer → Type 0
Sound roots log none = ⊥
Sound roots log (some (res, roots', log')) =
    SameRoots roots' roots × Announces res × (length log' ≡ length log + 1)

with_roots-Sound :
    (roots after : Map Bytes) (log : Log) (content : Option (Response × Log))
    → SameRoots after roots
    → SoundContent log content
    → Sound roots log (with_roots after content)
with_roots-Sound roots after log none s h = h
with_roots-Sound roots after log (some (res, log')) s (a, l) = (s, a, l)

-- The types that `config_parser` gives.
abbrev is_text : ℤ → Bool
is_text t = (pos_part t == 0 && neg_part t == 0) || pos_part t == 1

abbrev is_type : ℤ → Bool
is_type t = is_binary t || neg_part t == 1 || is_text t

config_parser-is_type : (uri : Bytes) → is_type (config_parser uri) ≡ true
unfolding config_parser
config_parser-is_type uri = ground arith

-- What a URI leads to is there to be read, or is not there, if it is of a type that is read as bytes:
-- it is no directory, for example.
abbrev pub IsReadable : FileSystem → Bytes → Map Bytes → Type 0
IsReadable fs uri roots =
    (path : Bytes) (after : Map Bytes)
    → is_binary (config_parser uri) ≡ true
    → replace_path uri roots ≡ some (path, after)
    → fs.entry (local_path fs path) ≢ unreadable

-- Files of less than 2 ^ 64 bytes.
module _ (fs : FileSystem) (short : (path : Bytes) → IsShort (fs.entry path)) where
  form_response-SoundContent :
      (t : ℤ) (path : Bytes) (log : Log)
      → is_text t ≡ true
      → SoundContent log (form_response fs t path log)
  unfolding form_response
  form_response-SoundContent t path log known =
      elim (Bool-cases (pos_part t == 0 && neg_part t == 0)) [
        | inl index ↦
            rw index (inr (inr refl), length-add_record path (codes "StaticHandler") Status.ok log)
        | inr other ↦ elim (Bool-cases (pos_part t == 1)) [
          | inl text ↦
              rw (other, text)
                (
                  text_entry-Announces (fs.entry (local_path fs path)) (short (local_path fs path)),
                  length-add_record path (codes "StaticHandler")
                      (text_entry (fs.entry (local_path fs path))).code log,
                )
          | inr bad ↦ cc (known, ap (λ b. b || pos_part t == 1) other, bad)
        ]
      ]

  get_binary_content-SoundContent :
      (path : Bytes) (t : ℤ) (log : Log)
      → fs.entry (local_path fs path) ≢ unreadable
      → SoundContent log (get_binary_content fs path t log)
  unfolding get_binary_content
  get_binary_content-SoundContent path t log readable =
      binary_entry-SoundContent path t log (fs.entry (local_path fs path))
        (short (local_path fs path)) readable

  text_at-Sound :
      (t : ℤ) (req : Request) (roots after : Map Bytes) (log : Log) (path : Bytes)
      → is_text t ≡ true
      → SameRoots after roots
      → Sound roots log (text_at fs t req log (some (path, after)))
  text_at-Sound t req roots after log [] known s = (
    s,
    not_found-Announces,
    length-add_record req.uri (codes "StaticHandler") Status.not_found log,
  )
  text_at-Sound t req roots after log (c ∷ path) known s =
      with_roots-Sound roots after log (form_response fs t (c ∷ path) log) s
        (form_response-SoundContent t (c ∷ path) log known)

  answer_type-Sound :
      (req : Request) (roots : Map Bytes) (log : Log) (t : ℤ)
      → is_type t ≡ true
      → ((path : Bytes) (after : Map Bytes)
          → is_binary t ≡ true
          → replace_path req.uri roots ≡ some (path, after)
          → fs.entry (local_path fs path) ≢ unreadable)
      → Sound roots log (answer_type fs req roots log t)
  answer_type-Sound req roots log t known readable =
      let r = replace_path-IsFound req.uri roots in
      elim (Bool-cases (is_binary t)) [
        | inl binary ↦
            rw (binary, r.returns)
              (with_roots-Sound roots r.after log (get_binary_content fs r.path t log) r.same (
                get_binary_content-SoundContent r.path t log
                  (readable r.path r.after binary r.returns)))
        | inr other ↦ elim (Bool-cases (neg_part t == 1)) [
          | inl directory ↦
              rw (other, directory)
                (
                  (λ k. refl),
                  not_found-Announces,
                  length-add_record req.uri (codes "StaticHandler") Status.not_found log,
                )
          | inr text ↦
              rw (other, text, r.returns)
                (text_at-Sound t req roots r.after log r.path (ground (arith, known, other, text))
                  r.same)
        ]
      ]

  -- If no file has 2 ^ 64 bytes or more, the handler answers every request of the method GET or POST
  -- whose URI does not lead to something that is there but cannot be read as bytes, such as a directory,
  -- by a name of a type that is read as bytes. The answer announces the length of its body, unless it is
  -- the index page; there is exactly one record more in the log, and no prefix has another root.
  pub handle_request-Sound :
      (req : Request) (roots : Map Bytes) (log : Log)
      → (req.method ≡ get) ⊎ (req.method ≡ post)
      → IsReadable fs req.uri roots
      → Sound roots log (handle_request fs req roots log)
  unfolding handle_request get_request_line
  handle_request-Sound req roots log (inl g) readable = rw g (
      answer_type-Sound req roots log (config_parser req.uri) (config_parser-is_type req.uri)
        readable)
  handle_request-Sound req roots log (inr p) readable = rw p (
      answer_type-Sound req roots log (config_parser req.uri) (config_parser-is_type req.uri)
        readable)

index_page-length :
    stoull (or_empty (lookup (codes "Content-Length") index_page.headers))
    ≡ some (length index_page.body + 1)
unfolding lookup assign equal less stoull is_digit
index_page-length = refl

-- A GET request of type 0, such as one for an icon, whose URI leads to a path that is not empty is
-- answered whatever the files are: the response announces one byte more than it has.
pub handle_request-index :
    (fs : FileSystem) (req : Request) (roots after : Map Bytes) (log : Log) (c : ℕ) (path : Bytes)
    → req.method ≡ get
    → config_parser req.uri ≡ pos 0
    → replace_path req.uri roots ≡ some (c ∷ path, after)
    → (res : Response) × (log' : Log) × (handle_request fs req roots log ≡ some (res, after, log'))
      × (stoull (or_empty (lookup (codes "Content-Length") res.headers))
          ≡ some (length res.body + 1))
unfolding handle_request get_request_line form_response
handle_request-index fs req roots after log c path g t e = (
  index_page,
  add_record (c ∷ path) (codes "StaticHandler") Status.ok log,
  rw (g, t, e) refl,
  index_page-length,
)
