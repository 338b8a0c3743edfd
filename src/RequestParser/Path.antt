-- ===== src/RequestParser/Path.antt =====
-- The path that the parser infers from the URI, at the space that ends it.
use cs130capstoneproject.Base.{
  ℕ, true, false, Option, none, some, [], ◌∷◌, ◌++◌, ◌==◌, if◌then◌else◌, get_last?,
}
use cs130capstoneproject.Base.Bytes.{Bytes, codes, find}
use cs130capstoneproject.RequestParser.Numbers.{read_hex}

abbrev pub plus_to_space : ℕ → ℕ
plus_to_space c = if c == b'+' then b' ' else c

-- The loop over `uri_`: `none` is the early return on a bad escape. An escape needs two more bytes.
unfoldable pub decode : Bytes → Bytes → Option Bytes
decode path [] = some path
decode path (c ∷ []) = if c == b'%' then none else some (path ++ plus_to_space c ∷ [])
decode path (c ∷ a ∷ []) =
    let rest = decode (path ++ plus_to_space c ∷ []) (a ∷ []) in if c == b'%' then none else rest
decode path (c ∷ a ∷ b ∷ s) = elim (c == b'%') [
  | true ↦ elim (read_hex a b) [ none ↦ none | some v ↦ decode (path ++ v ∷ []) s ]
  | false ↦ decode (path ++ plus_to_space c ∷ []) (a ∷ b ∷ s)
]

-- A directory gets its index file. `path_[path_.size() - 1]` is out of bounds on an empty path.
abbrev pub add_index : Bytes → Option ℕ → Option Bytes
add_index path none = none
add_index path (some c) = some (if c == b'/' then path ++ codes "index.html" else path)

abbrev pub check_path : Bytes → Option ℕ → Option Bytes
check_path path (some i) = some []
check_path path none = add_index path (get_last? path)

abbrev pub finish_path : Option Bytes → Option Bytes
finish_path none = some []
finish_path (some path) = check_path path (find (codes "..") path)

-- The new `path_`; `none` is the access out of bounds.
unfoldable pub infer_path : Bytes → Bytes → Option Bytes
unfolding decode
infer_path path uri = finish_path (decode path uri)
