-- ===== src/Proxy/Handler.antt =====
-- `ProxyHandler::handleRequest` and `setLocation`, and `CacheHandler::handleRequest`.
pub mod Laws
use cs130capstoneproject.Base.{
  ℕ, suc, ◌+◌, Bool, true, false, not, ◌&&◌, Option, none, some, List, [], ◌∷◌, ◌++◌, ◌==◌, length,
  take, drop, get_last?, if◌then◌else◌,
}
use cs130capstoneproject.Base.Bytes.{Bytes, codes, find, starts_with, equal}
use cs130capstoneproject.Base.Map.{Map, lookup, assign, erase}
use cs130capstoneproject.Base.Int.{ℤ}
use cs130capstoneproject.RequestParser.Request.{Request}
use cs130capstoneproject.Config.Syntax.{Statement, simple, block, Config, nil, cons}
use cs130capstoneproject.Http.Decimal.{to_string}
use cs130capstoneproject.Http.Status
use cs130capstoneproject.Http.Status.{StatusCode}
use cs130capstoneproject.Http.Response.{Response}
use cs130capstoneproject.Handlers.Log.{Log, add_record}
use cs130capstoneproject.Cache.Page.{Page}
use cs130capstoneproject.Cache.Control.{given, Decision, cache_control}
use cs130capstoneproject.Cache.Store.{use_cache, no_cache, store_cache}
use cs130capstoneproject.Proxy.Html.{parse_html_body}
use cs130capstoneproject.Proxy.Directives.{found, parse_cache_hdrs}
use cs130capstoneproject.Proxy.Transfer.{
  Transfer, no_handle, option_refused, failed, performed, header_data, message,
}

-- The addresses that the handler serves and is a proxy for.
pub record Location : Type 0 where
  pub serve_addr : Bytes
  pub proxy_addr : Bytes

-- The pages that all proxy handlers share, and the log.
pub record Stored : Type 0 where
  pub pages : Map Page
  pub log : Log

-- A response with the state that a request leaves, or an exception or an access out of bounds.
abbrev pub Answer : Type 0
Answer = Option (Response × Stored)

-- Whether `c` is the last byte; `none` where there is none to read.
abbrev pub ends_with : ℕ → Option ℕ → Option Bool
ends_with c none = none
ends_with c (some d) = some (d == c)

abbrev pub slash_if_bare : Bytes → Option Bool → Option Bytes
slash_if_bare suffix none = none
slash_if_bare suffix (some slash) = some (if slash then suffix else b'/' ∷ suffix)

-- The suffix, with a slash in front if it has none and the address ends with none. The first byte of
-- an empty text is the null that ends it.
abbrev pub join_suffix : Bytes → Bytes → Option Bytes
join_suffix proxy_addr suffix =
    if starts_with (codes "/") suffix
    then some suffix
    else slash_if_bare suffix (ends_with b'/' (get_last? proxy_addr))

abbrev pub behind_proxy : Bytes → Option Bytes → Option Bytes
behind_proxy proxy_addr none = none
behind_proxy proxy_addr (some suffix) = some (proxy_addr ++ suffix)

-- The URI without the address that is served; `replace` throws where that does not stand in it.
abbrev pub without_address : Location → Bytes → Option ℕ → Option Bytes
without_address l uri none = none
without_address l uri (some p) =
    behind_proxy l.proxy_addr
      (join_suffix l.proxy_addr (take p uri ++ drop (p + length l.serve_addr) uri))

-- Where a request goes.
unfoldable pub destination : Location → Bytes → Option Bytes
destination l uri =
    if starts_with (codes "http") uri
    then some uri
    else without_address l uri (find l.serve_addr uri)

-- The status code and what there is of headers and body.
abbrev pub plain_failure : Response
plain_failure = record {
  code = Status.internal_server_error;
  headers = [];
  body = [];
  src_type = 0;
}

abbrev pub contains_html : Option Bytes → Bool
contains_html none = false
contains_html (some v) = found (find (codes "text/html") v)

abbrev pub edit_body : Location → Bool → Bytes → Option Bytes
edit_body l true msg = parse_html_body l.serve_addr msg
edit_body l false msg = some msg

abbrev pub response_with : ℕ → Map Bytes → Option Bytes → Option Response
response_with code hdrs none = none
response_with code hdrs (some body) = some (record {
  code = code;
  headers = erase (codes "Transfer-Encoding") (
      assign (codes "Connection") (codes "close")
        (assign (codes "Content-Length") (to_string (length body)) hdrs));
  body = body;
  src_type = 0;
})

abbrev pub with_headers : Location → ℕ → Bytes → Option (Map Bytes) → Option Response
with_headers l code msg none = none
with_headers l code msg (some hdrs) =
    response_with code hdrs (edit_body l (contains_html (lookup (codes "Content-Type") hdrs)) msg)

-- The response to what curl reports.
unfoldable pub receive : Location → Transfer → Option Response
receive l no_handle = some plain_failure
receive l option_refused = some plain_failure
receive l failed = some plain_failure
receive l (performed code lines chunks) =
    with_headers l code (message chunks []) (header_data lines [])

abbrev pub stored_if : Bool → ℕ → Bytes → Response → Map Page → Map Page
stored_if true now uri res pages = store_cache now uri res pages
stored_if false now uri res pages = pages

-- The record in the log, and the page if the response is to be kept and has status 200.
abbrev pub keep : ℕ → Request → Bool → Stored → Option Response → Answer
keep now req should_cache s none = none
keep now req should_cache s (some res) = some (
  res,
  record {
    pages = stored_if (should_cache && (res.code == Status.ok)) now req.uri res s.pages;
    log = add_record req.uri (codes "ProxyHandler") res.code s.log;
  },
)

-- `use_cache` has read the page that `can_use` promises.
abbrev pub from_cache : Map Page → Option (Response × Log) → Answer
from_cache pages none = none
from_cache pages (some (res, log)) = some (res, record { pages = pages; log = log })

-- `trim` is boost's; `transfer` is what curl makes of a destination. The clock is read before the
-- transfer and after it.
module _ (trim : Bytes → Bytes) (transfer : Bytes → Transfer) where
  abbrev pub fetch : ℕ → Location → Request → Bool → Stored → Option Bytes → Answer
  fetch later l req should_cache s none = none
  fetch later l req should_cache s (some dest) =
      keep later req should_cache s (receive l (transfer dest))

  abbrev pub decided : ℕ → Location → Request → Log → Decision → Answer
  decided later l req log d =
      if d.can_use
      then from_cache d.pages (use_cache req.uri d.pages log)
      else if d.cache_only
      then some (no_cache, record { pages = d.pages; log = log })
      else fetch later l req d.should_cache (record { pages = d.pages; log = log })
          (destination l req.uri)

  abbrev pub with_directives : ℕ → ℕ → Location → Request → Stored → Option (Map ℤ) → Answer
  with_directives now later l req s none = none
  with_directives now later l req s (some hdrs) =
      decided later l req s.log
        (cache_control now hdrs req.uri (given hdrs (codes "no-cache")) s.pages)

  unfoldable pub handle_request : ℕ → ℕ → Location → Request → Stored → Answer
  handle_request now later l req s =
      with_directives now later l req s (parse_cache_hdrs trim req.headers)

  -- `CacheHandler::handleRequest`, on a proxy handler of its own, which has no addresses.
  unfoldable pub handle_cached : ℕ → ℕ → Request → Stored → Answer
  handle_cached now later req s =
      handle_request now later (record { serve_addr = []; proxy_addr = [] }) req s

-- The second token of a statement that `Init` looks for; every statement of a file has a token.
abbrev pub second_token : List Bytes → Option Bytes
second_token (t ∷ u ∷ ts) = if equal t (codes "proxy_pass") then some u else none
second_token _ = none

abbrev pub tokens_of : Statement → List Bytes
tokens_of (simple ts) = ts
tokens_of (block ts c) = ts

unfoldable pub proxy_pass : Config → Bytes
proxy_pass nil = []
proxy_pass (cons s c) = elim (second_token (tokens_of s)) [ none ↦ proxy_pass c | some u ↦ u ]

-- `Init` and `setLocation`: the addresses without the quotation marks around them, which
-- `trim_copy_if` of boost takes off.
unfoldable pub init : (Bytes → Bytes) → Bytes → Config → Location
init trim_quotes location_path config = record {
  serve_addr = trim_quotes location_path;
  proxy_addr = trim_quotes (proxy_pass config);
}
