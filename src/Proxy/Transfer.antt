-- ===== src/Proxy/Transfer.antt =====
-- What curl hands to `header_callback` and `write_callback`, and what they make of it.
use cs130capstoneproject.Base.{
  ℕ, ◌+◌, ◌||◌, Option, none, some, List, [], ◌∷◌, ◌++◌, ◌==◌, leb, length, take, drop,
  if◌then◌else◌,
}
use cs130capstoneproject.Base.Bytes.{Bytes, codes, find}
use cs130capstoneproject.Base.Map.{Map, insert}

-- A transfer, as curl reports it: no handle, an option that is refused, an error, or a status code with
-- the chunks that the two callbacks are given, which are the lines of the header and parts of the
-- body.
pub data Transfer : Type 0 where
  no_handle option_refused failed : Transfer
  performed : ℕ → List Bytes → List Bytes → Transfer

-- The loop over the buffer: the bytes in front of the end of the line.
unfoldable pub header_line : Bytes → Bytes
header_line [] = []
header_line (c ∷ s) = let rest = c ∷ header_line s in if c == b'\r' || c == b'\n' then [] else rest

-- hdr.substr(colon_pos + 2), which throws where the text ends at the colon
abbrev pub value_from : Bytes → ℕ → Option Bytes
value_from hdr colon = if leb (colon + 2) (length hdr) then some (drop (colon + 2) hdr) else none

abbrev pub insert_value : Bytes → Option Bytes → Map Bytes → Option (Map Bytes)
insert_value name none m = none
insert_value name (some v) m = some (insert name v m)

abbrev pub insert_header : Bytes → Option ℕ → Map Bytes → Option (Map Bytes)
insert_header hdr none m = some m
insert_header hdr (some colon) m = insert_value (take colon hdr) (value_from hdr colon) m

-- `none` is the exception. The order of an `unordered_map` is not looked at: its entries are copied to
-- a map.
unfoldable pub header_callback : Bytes → Map Bytes → Option (Map Bytes)
header_callback buffer m =
    let hdr = header_line buffer in insert_header hdr (find (codes ":") hdr) m

abbrev pub then_headers : Option (Map Bytes) → (Map Bytes → Option (Map Bytes)) → Option (Map Bytes)
then_headers none k = none
then_headers (some m) k = k m

unfoldable pub header_data : List Bytes → Map Bytes → Option (Map Bytes)
header_data [] m = some m
header_data (line ∷ lines) m = then_headers (header_callback line m) (header_data lines)

unfoldable pub write_callback : Bytes → Bytes → Bytes
write_callback chunk msg = msg ++ chunk

unfoldable pub message : List Bytes → Bytes → Bytes
message [] msg = msg
message (chunk ∷ chunks) msg = message chunks (write_callback chunk msg)
