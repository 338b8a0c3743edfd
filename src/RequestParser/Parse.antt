-- ===== src/RequestParser/Parse.antt =====
-- `RequestParser::Parse` and what it writes to the request.
use cs130capstoneproject.Base.{ℕ, ◌-◌, Option, none, some, [], ◌∷◌, map, within, if◌then◌else◌}
use cs130capstoneproject.Base.Bytes.{Bytes, codes, equal}
use cs130capstoneproject.Base.Map.{Map, insert}
use cs130capstoneproject.RequestParser.Request.{
  Method, get, post, put, delete, head, connect, options, trace, patch, Request,
}
use cs130capstoneproject.RequestParser.State.{Result, good, bad, undefined, Headers, Parser, reset}
use cs130capstoneproject.RequestParser.Step.{next_char_handler}

unfoldable pub to_upper : ℕ → ℕ
to_upper c = if within b'a' b'z' c then c - 32 else c

-- `getMethod`: any other method is PATCH
unfoldable pub get_method : Bytes → Method
unfolding to_upper equal
get_method m =
    let name = map to_upper m in
    if equal name (codes "GET")
    then get
    else if equal name (codes "POST")
    then post
    else if equal name (codes "PUT")
    then put
    else if equal name (codes "DELETE")
    then delete
    else if equal name (codes "HEAD")
    then head
    else if equal name (codes "CONNECT")
    then connect
    else if equal name (codes "OPTIONS")
    then options
    else if equal name (codes "TRACE")
    then trace
    else patch

abbrev pub insert_header : Map Bytes → Bytes × Bytes → Map Bytes
insert_header m (n, v) = insert n v m

-- `getHeaderMap`: the range constructor of `std::map` inserts the headers in order
unfoldable pub header_map_from : Map Bytes → Headers → Map Bytes
header_map_from m [] = m
header_map_from m (h ∷ hs) = header_map_from (insert_header m h) hs

unfoldable pub get_header_map : Headers → Map Bytes
unfolding header_map_from
get_header_map hs = header_map_from [] hs

-- what a good or a bad result writes to the request
abbrev pub write_request : Parser → Request
write_request p = record {
  method = get_method p.method;
  uri = p.uri;
  headers = get_header_map p.headers;
  body = p.body;
  version = p.version;
}

-- The result, the input that is not consumed, and the parser and the request afterwards.
pub record Parsed : Type 0 where
  pub result : Result
  pub unread : Bytes
  pub parser : Parser
  pub request : Request

abbrev pub finish : Result → Parser → Bytes → Option Parsed
finish r p s = some (record { result = r; unread = s; parser = reset p; request = write_request p })

-- `Parse`: the loop, over the bytes to come. `none` is undefined behaviour.
unfoldable pub parse : Parser → Request → Bytes → Option Parsed
parse p req [] = some (record { result = undefined; unread = []; parser = p; request = req })
parse p req (c ∷ s) = elim (next_char_handler p c) [
  | none ↦ none
  | some (undefined, q) ↦ parse q req s
  | some (good, q) ↦ finish good q s
  | some (bad, q) ↦ finish bad q s
]
