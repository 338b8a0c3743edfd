-- ===== src/RequestParser/HeaderMap.antt =====
-- The map of headers that a request carries against the list that the parser collects.
use cs130capstoneproject.Base.{◌≡◌, ◌∙◌, Option, none, some, [], ◌∷◌, arith}
use cs130capstoneproject.Base.Bytes.{Bytes}
use cs130capstoneproject.Base.Map.{Map, lookup, insert, lookup-insert}
use cs130capstoneproject.RequestParser.State.{Headers, get_header_value}
use cs130capstoneproject.RequestParser.Parse.{header_map_from, get_header_map}

-- The value found, or the empty string.
abbrev pub or_empty : Option Bytes → Bytes
or_empty none = []
or_empty (some v) = v

abbrev first_of_two : Option Bytes → Bytes → Bytes
first_of_two (some v) later = v
first_of_two none later = later

lookup-header_map_from :
    (hs : Headers) (m : Map Bytes) (name : Bytes)
    → or_empty (lookup name (header_map_from m hs))
      ≡ first_of_two (lookup name m) (get_header_value hs name)
unfolding header_map_from get_header_value
lookup-header_map_from [] m name = ground arith
lookup-header_map_from ((n, v) ∷ hs) m name =
    lookup-header_map_from hs (insert n v m) name ∙ ground (arith, lookup-insert n name v m)

-- Read with the empty string for a name that is missing, the map has for every name the value that
-- `GetHeaderValue` finds in the list: the first one.
pub lookup-get_header_map :
    (hs : Headers) (name : Bytes)
    → or_empty (lookup name (get_header_map hs)) ≡ get_header_value hs name
unfolding get_header_map lookup
lookup-get_header_map hs name = lookup-header_map_from hs [] name
