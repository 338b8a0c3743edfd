-- ===== src/RequestParser/PathSafety.antt =====
-- The inferred path does not go up in the directory tree.
use cs130capstoneproject.Base.{
  ℕ, ◌≡◌, ◌≢◌, inl, inr, Bool-cases, refl, Option, none, some, [], ◌∷◌, ◌++◌, arith, ◌==◌,
  get_last?,
}
use cs130capstoneproject.Base.Bytes.{Bytes, codes, find}
use cs130capstoneproject.RequestParser.Path.{add_index, infer_path, check_path, finish_path, decode}

find_dots-add_index :
    (path : Bytes)
    → find (codes "..") path ≡ none
    → get_last? path ≡ some b'/'
    → find (codes "..") (path ++ codes "index.html") ≡ none
unfolding find
find_dots-add_index [] h k = cc
find_dots-add_index (x ∷ []) h k = ground arith
find_dots-add_index (x ∷ y ∷ s) h k = ground (arith, find_dots-add_index (y ∷ s))

get_last?-append : (s t : Bytes) → t ≢ [] → get_last? (s ++ t) ≡ get_last? t
get_last?-append [] t h = refl
get_last?-append (y ∷ []) [] h = absurd (h refl)
get_last?-append (y ∷ []) (z ∷ t) h = refl
get_last?-append (y ∷ z ∷ s) t h = get_last?-append (z ∷ s) t h

-- No "..", and no '/' at the end.
abbrev pub IsInside : Bytes → Type 0
IsInside path = (find (codes "..") path ≡ none) × (get_last? path ≢ some b'/')

IsInside-nil : IsInside []
unfolding find
IsInside-nil = (refl, λ e. cc)

add_index-IsInside :
    (s path : Bytes) (last : Option ℕ)
    → find (codes "..") s ≡ none
    → get_last? s ≡ last
    → add_index s last ≡ some path
    → IsInside path
add_index-IsInside s path none clean l e = cc
add_index-IsInside s path (some c) clean l e = elim (Bool-cases (c == b'/')) [
  | inl slash ↦
      let e' : s ++ codes "index.html" ≡ path = ground arith in
      rw (← e') (
        find_dots-add_index s clean (ground arith),
        rw (get_last?-append s (codes "index.html") (λ x. cc)) (λ x. ground arith),
      )
  | inr file ↦ let e' : s ≡ path = ground arith in rw (← e') (clean, rw l (λ x. ground arith))
]

check_path-IsInside :
    (s path : Bytes) (up : Option ℕ)
    → find (codes "..") s ≡ up
    → check_path s up ≡ some path
    → IsInside path
check_path-IsInside s path none clean e = add_index-IsInside s path (get_last? s) clean refl e
check_path-IsInside s path (some i) up e = let e' : [] ≡ path = cc in rw (← e') IsInside-nil

finish_path-IsInside :
    (decoded : Option Bytes) (path : Bytes) → finish_path decoded ≡ some path → IsInside path
finish_path-IsInside none path e = let e' : [] ≡ path = cc in rw (← e') IsInside-nil
finish_path-IsInside (some s) path e = check_path-IsInside s path _ refl e

-- Whatever escapes the URI holds, the path inferred from it has no ".." and does not end with a
-- slash: a directory is asked for by its index file, and a path with ".." becomes empty.
pub infer_path-IsInside :
    (start uri path : Bytes) → infer_path start uri ≡ some path → IsInside path
unfolding infer_path
infer_path-IsInside start uri path e = finish_path-IsInside (decode start uri) path e
