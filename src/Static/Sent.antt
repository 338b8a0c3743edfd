-- ===== src/Static/Sent.antt =====
-- A file in the root of a location, as the handler of static files sends it.
use cs130capstoneproject.Base.{
  ℕ, ◌≡◌, refl, ap, ◌∙◌, ◌⊎◌, inl, inr, true, false, Option, none, some, [], ◌∷◌, ◌++◌, ◌==◌, arith,
  All, length, take_self, Bool-cases, if◌then◌else◌,
}
use mathlib.Core.Option.{some_inj}
use cs130capstoneproject.Base.Bytes.{Bytes, codes, find_last}
use cs130capstoneproject.Base.Find.{drop_behind}
use cs130capstoneproject.Base.Int.{ℤ, pos, negsuc, pos_part}
use cs130capstoneproject.Base.Map.{Map}
use cs130capstoneproject.RequestParser.Request.{get, post, Request}
use cs130capstoneproject.Http.Response.{Response}
use cs130capstoneproject.Handlers.Log.{Log, add_record}
use cs130capstoneproject.Static.Types.{config_parser}
use cs130capstoneproject.Static.Paths.{index, replace_path}
use cs130capstoneproject.Static.Roots.{root_of, search_root-hit, index-root}
use cs130capstoneproject.Static.Files.{
  FileSystem, file, join_lines, text_response, binary_response, get_binary_content, form_response,
  local_path, get_request_line, is_binary, answer_type, handle_request,
}

find_last-plain : (s : Bytes) → All (λ c. (c == b'/') ≡ false) s → find_last b'/' s ≡ none
unfolding find_last
find_last-plain [] h = refl
find_last-plain (c ∷ s) (h, hs) = rw (find_last-plain s hs, h) refl

-- A file without a slash, behind a location.
find_last-file :
    (location name : Bytes)
    → All (λ c. (c == b'/') ≡ false) name
    → find_last b'/' (location ++ b'/' ∷ name) ≡ some (length location)
unfolding find_last
find_last-file [] name plain = rw (find_last-plain name plain) refl
find_last-file (c ∷ location) name plain = rw (find_last-file location name plain) refl

-- The file in the root of the location.
pub replace_path-file :
    (location name root : Bytes) (c : ℕ) (roots : Map Bytes)
    → All (λ b. (b == b'/') ≡ false) name
    → root_of location roots ≡ c ∷ root
    → replace_path (location ++ b'/' ∷ name) roots ≡ some ((c ∷ root) ++ b'/' ∷ name, roots)
unfolding replace_path index
replace_path-file location name root c roots plain e =
    rw
      (
        find_last-file location name plain,
        take_self location (b'/' ∷ name),
        drop_behind location name b'/',
        search_root-hit (length location) location [] name roots c root
            (index-root location roots ∙ e),
        index-same,
      )
      refl
  where
    index-same : (index location roots).1 ≡ roots
    index-same = ground (arith, e)

-- What a file is sent as, by its type.
abbrev pub file_response : ℤ → Bytes → Option Response
file_response t content =
    if is_binary t
    then some (binary_response t content)
    else if pos_part t == 1
    then some (text_response (join_lines content))
    else none

-- A file that is there, by its type.
answer_type-file :
    (fs : FileSystem) (req : Request) (roots : Map Bytes) (log : Log) (c : ℕ) (path content : Bytes)
    (res : Response) (t : ℤ)
    → replace_path req.uri roots ≡ some (c ∷ path, roots)
    → fs.entry (local_path fs (c ∷ path)) ≡ file content
    → file_response t content ≡ some res
    → answer_type fs req roots log t
      ≡ some (res, roots, add_record (c ∷ path) (codes "StaticHandler") res.code log)
unfolding get_binary_content form_response
answer_type-file fs req roots log c path content res (negsuc n) found there e = cc
answer_type-file fs req roots log c path content res (pos n) found there e =
    elim (Bool-cases (is_binary (pos n))) [
      | inl binary ↦
          rw (binary, found, there)
            (ap (λ r. some (r, roots, add_record (c ∷ path) (codes "StaticHandler") r.code log))
              (some_inj.0 (rw binary at e)))
      | inr other ↦ elim (Bool-cases (n == 1)) [
        | inr neither ↦ cc (rw (other, neither) at e)
        | inl text ↦
            rw (other, found, one n text, text, there)
              (ap (λ r. some (r, roots, add_record (c ∷ path) (codes "StaticHandler") r.code log))
                (some_inj.0 (rw (other, text) at e)))
      ]
    ]
  where
    one : (n : ℕ) → (n == 1) ≡ true → (n == 0) ≡ false
    one n h = ground arith

-- The handler of static files, at a file that is there.
pub handle_request-file :
    (fs : FileSystem) (req : Request) (roots : Map Bytes) (log : Log) (c : ℕ) (path content : Bytes)
    (res : Response)
    → (req.method ≡ get) ⊎ (req.method ≡ post)
    → replace_path req.uri roots ≡ some (c ∷ path, roots)
    → fs.entry (local_path fs (c ∷ path)) ≡ file content
    → file_response (config_parser req.uri) content ≡ some res
    → handle_request fs req roots log
      ≡ some (res, roots, add_record (c ∷ path) (codes "StaticHandler") res.code log)
unfolding handle_request get_request_line
handle_request-file fs req roots log c path content res (inl m) found there e =
    rw m
      (answer_type-file fs req roots log c path content res (config_parser req.uri) found there e)
handle_request-file fs req roots log c path content res (inr m) found there e =
    rw m
      (answer_type-file fs req roots log c path content res (config_parser req.uri) found there e)
