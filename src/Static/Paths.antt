-- ===== src/Static/Paths.antt =====
-- `StaticFileHandler::Init` and `replace_path`: from a location to the directory of its files.
use cs130capstoneproject.Base.{
  ℕ, zero, suc, ◌-◌, Option, none, some, [], ◌∷◌, ◌++◌, leb, length, take, drop, if◌then◌else◌,
}
use cs130capstoneproject.Base.Bytes.{Bytes, codes, find, find_last}
use cs130capstoneproject.Base.Map.{Map, lookup, assign}
use cs130capstoneproject.Config.Syntax.{Config, config_to_string}

-- substr(pos, length - pos - 3), whose count wraps around where fewer bytes are left
abbrev pub but_three : Bytes → Bytes
but_three s = if leb 3 (length s) then take (length s - 3) s else s

-- From the first slash on; `substr` throws where there is none.
abbrev pub root_from : Bytes → Option ℕ → Option Bytes
root_from path none = none
root_from path (some p) = some (but_three (drop p path))

-- substr(1, length - 2), which throws on an empty text
abbrev pub without_marks : Bytes → Option Bytes
without_marks [] = none
without_marks (c ∷ s) = some (take (length s - 1) s)

abbrev pub set_root : Option Bytes → Option Bytes → Map Bytes → Option (Map Bytes)
set_root (some location) (some root) roots = some (assign location root roots)
set_root _ _ roots = none

-- `Init`, on the map that all static handlers share; `none` is an exception.
unfoldable pub init : Bytes → Config → Map Bytes → Option (Map Bytes)
init location_path config roots =
    let path = config_to_string 0 config in
    set_root (without_marks location_path) (root_from path (find (codes "/") path)) roots

-- locationToRoot[prefix]: a prefix that is not there is inserted with an empty root
abbrev pub root_at : Bytes → Map Bytes → Option Bytes → Bytes × Map Bytes
root_at prefix roots none = ([], assign prefix [] roots)
root_at prefix roots (some root) = (root, roots)

unfoldable pub index : Bytes → Map Bytes → Bytes × Map Bytes
index prefix roots = root_at prefix roots (lookup prefix roots)

-- A path, and the map afterwards.
abbrev pub Found : Type 0
Found = Option (Bytes × Map Bytes)

-- The loop over the prefixes, with the file at the end; a round takes fuel.
unfoldable pub search_root : ℕ → Bytes → Bytes → Bytes → Map Bytes → Found
search_root zero prefix subpath file roots = none
search_root (suc f) prefix subpath file roots = elim (index prefix roots).0 [
  | c ∷ root ↦ some ((c ∷ root) ++ (subpath ++ b'/' ∷ file), (index prefix roots).1)
  | [] ↦ elim (find_last b'/' prefix) [
    | none ↦ some ([], (index prefix roots).1)
    | some p ↦ search_root f (take p prefix) (drop p prefix ++ subpath) file (index prefix roots).1
  ]
]

-- The directory and the file of a URI: without a slash all of it is both.
abbrev pub split_uri : Bytes → Option ℕ → Bytes × Bytes
split_uri uri none = (uri, uri)
split_uri uri (some p) = (take p uri, drop (suc p) uri)

-- Every round but the last makes the prefix shorter. The path is empty where no prefix has a root.
unfoldable pub replace_path : Bytes → Map Bytes → Found
replace_path uri roots =
    let (prefix, file) = split_uri uri (find_last b'/' uri) in
    search_root (suc (length prefix)) prefix [] file roots
