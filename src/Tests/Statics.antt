-- ===== src/Tests/Statics.antt =====
-- The theorems on static files at concrete inputs.
use cs130capstoneproject.Base.{◌↔◌, ◌≡◌, refl, inl, [], ◌∷◌, arith}
use cs130capstoneproject.Base.Bytes.{Bytes, codes, find_last}
use cs130capstoneproject.Base.Map.{Map}
use cs130capstoneproject.RequestParser.Request.{Request, reset_request}
use cs130capstoneproject.Static.Paths.{split_uri, replace_path}
use cs130capstoneproject.Static.Files.{FileSystem, file, handle_request}
use cs130capstoneproject.Static.Roots.{IsFound, replace_path-IsFound}
use cs130capstoneproject.Base.Int.{pos}
use cs130capstoneproject.Static.Types.{config_parser}
use cs130capstoneproject.Static.Names.{HasType, config_parser_iff}
use cs130capstoneproject.Static.Answers.{Sound, handle_request-Sound}

abbrev roots : Map Bytes
roots = (codes "/static", codes "/www") ∷ []

replace_path-IsFound_example :
    let (directory, name) =
      split_uri (codes "/static/a/b.html") (find_last b'/' (codes "/static/a/b.html")) in
    IsFound roots directory name (replace_path (codes "/static/a/b.html") roots)
replace_path-IsFound_example = replace_path-IsFound (codes "/static/a/b.html") roots

-- A disk with the same text under every path.
abbrev disk : FileSystem
disk = record { current_path = codes "/srv"; entry = λ path. file (codes "abc") }

abbrev request : Request
request = record reset_request { uri = codes "/static/a.html" }

handle_request-Sound_example : Sound roots [] (handle_request disk request roots [])
handle_request-Sound_example =
    handle_request-Sound disk (λ path. omega arith) request roots [] (inl refl)
      (λ path after b e f. cc)

config_parser_iff_example :
    (config_parser (codes "/a/b.html") ≡ pos 1) ↔ HasType (codes "/a/b.html") (pos 1)
config_parser_iff_example = config_parser_iff (codes "/a/b.html") (pos 1)
