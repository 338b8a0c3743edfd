-- ===== src/Port/Paths.antt =====
-- `port::checkFilePath` and `setFilePath`: the locations of the file, with the paths in their blocks.
use cs130capstoneproject.Base.{
  ℕ, zero, suc, ◌%◌, Bool, true, false, Option, none, some, List, [], ◌∷◌, ◌++◌, ◌==◌, length,
  if◌then◌else◌,
}
use cs130capstoneproject.Base.Bytes.{Bytes, codes, equal}
use cs130capstoneproject.Config.Lexer.{get_token}

-- The loop to the semicolon, which puts the tokens before it in the queue; with what is left of the file.
unfoldable pub push_to : ℕ → Bytes → Bytes → List Bytes → Option (Bytes × List Bytes)
push_to zero token input queue = none
push_to (suc f) token input queue = elim (equal token (codes ";")) [
  | true ↦ some (input, queue)
  | false ↦ push_to f (get_token input).0 (get_token input).1 (queue ++ token ∷ [])
]

-- The token, the input that is left, and the queue after a location.
abbrev pub Queued : Type 0
Queued = Option (Bytes × Bytes × List Bytes)

abbrev pub at_semicolon : Option (Bytes × List Bytes) → Queued
at_semicolon none = none
at_semicolon (some (rest, queue)) = some (codes ";", rest, queue)

abbrev pub path_block : ℕ → Bytes → Bytes → List Bytes → Queued
path_block f token input queue =
    if equal token (codes "{")
    then at_semicolon (push_to f (get_token input).0 (get_token input).1 queue)
    else some (token, input, queue)

-- The body of the loop.
abbrev pub read_path : ℕ → Bool → Bytes → Bytes → List Bytes → Queued
read_path f true token input queue =
    path_block f (get_token input).0 (get_token input).1 (queue ++ token ∷ [])
read_path f false token input queue = some (token, input, queue)

-- The loop over the tokens. A round takes fuel, and so does one of the loop in it; `none` is too
-- little.
unfoldable pub path_queue : ℕ → Bytes → Bytes → Bytes → List Bytes → Option (List Bytes)
path_queue zero last token input queue = none
path_queue (suc f) last [] input queue = some queue
path_queue (suc f) last (c ∷ t) input queue =
    elim (read_path f (equal last (codes "location")) (c ∷ t) input queue) [
      | none ↦ none
      | some (token, rest, queue') ↦ path_queue f token (get_token rest).0 (get_token rest).1 queue'
    ]

-- `setFilePath`
abbrev pub set_file_path : Bytes → Bytes → List Bytes → List Bytes
set_file_path alias path file_map = file_map ++ alias ∷ path ∷ []

-- The loop that takes three tokens at once from the queue.
unfoldable pub set_paths : List Bytes → List Bytes → List Bytes
set_paths (alias ∷ word ∷ path ∷ queue) file_map =
    set_paths queue (set_file_path alias path file_map)
set_paths _ file_map = file_map

-- The result, and the file map that the port keeps.
abbrev pub checked : List Bytes → List Bytes → Bool × List Bytes
checked [] file_map = (false, file_map)
checked (t ∷ queue) file_map =
    if length (t ∷ queue) % 3 == 0
    then (true, set_paths (t ∷ queue) file_map)
    else (false, file_map)

abbrev pub check_paths : List Bytes → Option (List Bytes) → Option (Bool × List Bytes)
check_paths file_map none = none
check_paths file_map (some queue) = some (checked queue file_map)

-- `checkFilePath`; `f` bounds the rounds of each loop over the tokens.
unfoldable pub check_file_path : ℕ → Bytes → List Bytes → Option (Bool × List Bytes)
check_file_path f input file_map =
    check_paths file_map (path_queue f [] (get_token input).0 (get_token input).1 [])
