-- ===== src/Proxy/Handler/Laws.antt =====
-- When the proxy answers from its cache, and when it fetches.
use cs130capstoneproject.Base.{ℕ, ◌≡◌, refl, ◌∙◌, Bool, true, false, none, some, List, [], arith}
use cs130capstoneproject.Base.Bytes.{Bytes, codes, equal_refl, starts_with}
use cs130capstoneproject.Base.Map.{Map, lookup, lookup-insert}
use cs130capstoneproject.Base.Int.{ℤ}
use cs130capstoneproject.RequestParser.Request.{Request}
use cs130capstoneproject.Http.Status
use cs130capstoneproject.Http.Response.{Response}
use cs130capstoneproject.Handlers.Log.{Log, add_record}
use cs130capstoneproject.Cache.Page.{Page, new_page}
use cs130capstoneproject.Cache.Control.{given, cache_control}
use cs130capstoneproject.Cache.Store.{use_cache, store_cache}
use cs130capstoneproject.Cache.Laws.{Answers, cache_control-can_use_iff, cache_control-no_directive}
use cs130capstoneproject.Proxy.Html.{parse_html_body, target_addr}
use cs130capstoneproject.Proxy.Directives.{parse_cache_hdrs}
use cs130capstoneproject.Proxy.Transfer.{Transfer, performed, header_data}
use cs130capstoneproject.Proxy.Handler.{
  Location, Stored, contains_html, destination, receive, handle_request, handle_cached,
}

cache_control-Answers :
    (now : ℕ) (hdrs : Map ℤ) (uri : Bytes) (pages : Map Page)
    → (a : Answers now hdrs uri false pages)
    → (cache_control now hdrs uri false pages).pages ≡ pages
unfolding cache_control
cache_control-Answers now hdrs uri pages a = ground (arith, a.stored, a.storable)

use_cache-stored :
    (uri : Bytes) (pages : Map Page) (p : Page) (log : Log)
    → lookup uri pages ≡ some p
    → use_cache uri pages log
      ≡ some (p.response, add_record uri (codes "ProxyHandler") Status.not_modified log)
unfolding use_cache
use_cache-stored uri pages p log e = rw (e, use_cache) refl

module _ (trim : Bytes → Bytes) where
  -- A request that a stored page answers gets its response, with a record in the log; the pages stay
  -- as they are, and nothing is transferred: the answer is the same for every transfer.
  pub handle_request-cached :
      (transfer : Bytes → Transfer) (now later : ℕ) (l : Location) (req : Request) (s : Stored)
      (hdrs : Map ℤ)
      → parse_cache_hdrs trim req.headers ≡ some hdrs
      → given hdrs (codes "no-cache") ≡ false
      → (a : Answers now hdrs req.uri false s.pages)
      → handle_request trim transfer now later l req s
        ≡ some (
          a.page.response,
          record s { log = add_record req.uri (codes "ProxyHandler") Status.not_modified s.log },
        )
  unfolding handle_request
  handle_request-cached transfer now later l req s hdrs e fresh a =
      rw
        (
          e,
          fresh,
          (cache_control-can_use_iff now hdrs req.uri false s.pages).1 a,
          cache_control-Answers now hdrs req.uri s.pages a,
          use_cache-stored req.uri s.pages a.page s.log a.stored,
        )
        refl

  -- A page that is not there is fetched, where the request does not ask for the cache alone.
  cache_control-absent :
      (now : ℕ) (hdrs : Map ℤ) (uri : Bytes) (must : Bool) (pages : Map Page)
      → lookup uri pages ≡ none
      → given hdrs (codes "only-if-cached") ≡ false
      → given hdrs (codes "no-store") ≡ false
      → cache_control now hdrs uri must pages ≡ record {
        can_use = false;
        cache_only = false;
        should_cache = true;
        result = true;
        pages = pages;
      }
  unfolding cache_control
  cache_control-absent now hdrs uri true pages e o n = rw n refl
  cache_control-absent now hdrs uri false pages e o n = rw (e, o, n) refl

  -- The page is there after a response with status 200.
  abbrev fetched : ℕ → Request → Response → Stored → Stored
  fetched later req res s = record {
    pages = store_cache later req.uri res s.pages;
    log = add_record req.uri (codes "ProxyHandler") res.code s.log;
  }

  handle_request-fetched :
      (transfer : Bytes → Transfer) (now later : ℕ) (l : Location) (req : Request) (s : Stored)
      (hdrs : Map ℤ) (dest : Bytes) (res : Response)
      → parse_cache_hdrs trim req.headers ≡ some hdrs
      → lookup req.uri s.pages ≡ none
      → given hdrs (codes "only-if-cached") ≡ false
      → given hdrs (codes "no-store") ≡ false
      → destination l req.uri ≡ some dest
      → receive l (transfer dest) ≡ some res
      → res.code ≡ Status.ok
      → handle_request trim transfer now later l req s ≡ some (res, fetched later req res s)
  unfolding handle_request
  handle_request-fetched transfer now later l req s hdrs dest res e k o n d r c =
      rw
        (
          e,
          cache_control-absent now hdrs req.uri (given hdrs (codes "no-cache")) s.pages k o n,
          d,
          r,
        )
        (ground arith)

  -- A page that was not there, and was fetched with status 200 for a request without only-if-cached
  -- and no-store, answers the next request for its URI that gives none of max-age, max-stale,
  -- min-fresh, no-store and no-cache: at any time, through any proxy handler, and whatever a second
  -- transfer would bring.
  pub handle_request-again :
      (transfer transfer' : Bytes → Transfer) (now later now' later' : ℕ) (l l' : Location)
      (req req' : Request) (s : Stored) (hdrs hdrs' : Map ℤ) (dest : Bytes) (res : Response)
      → parse_cache_hdrs trim req.headers ≡ some hdrs
      → lookup req.uri s.pages ≡ none
      → given hdrs (codes "only-if-cached") ≡ false
      → given hdrs (codes "no-store") ≡ false
      → destination l req.uri ≡ some dest
      → receive l (transfer dest) ≡ some res
      → res.code ≡ Status.ok
      → parse_cache_hdrs trim req'.headers ≡ some hdrs'
      → req'.uri ≡ req.uri
      → given hdrs' (codes "max-age") ≡ false
      → given hdrs' (codes "max-stale") ≡ false
      → given hdrs' (codes "min-fresh") ≡ false
      → given hdrs' (codes "no-store") ≡ false
      → given hdrs' (codes "no-cache") ≡ false
      → (first second : Stored) × (handle_request trim transfer now later l req s
          ≡ some (res, first))
        × (handle_request trim transfer' now' later' l' req' first ≡ some (res, second))
  unfolding store_cache
  handle_request-again transfer transfer' now later now' later' l l' req req' s hdrs hdrs' dest res
        e k o n d r c e' u a st f n' fresh =
      let kept : lookup req'.uri (fetched later req res s).pages ≡ some (new_page later res) =
        rw (u, lookup-insert req.uri req.uri (new_page later res) s.pages, k, equal_refl req.uri)
          refl in
      let page =
        (cache_control-can_use_iff now' hdrs' req'.uri false (fetched later req res s).pages).0 (
          cache_control-no_directive now' hdrs' req'.uri (fetched later req res s).pages
            (new_page later res) kept a st f n') in
      let same : page.page ≡ new_page later res = ground (arith, kept, page.stored) in
      (
        fetched later req res s,
        record (fetched later req res s) {
          log =
              add_record req'.uri (codes "ProxyHandler") Status.not_modified
                (fetched later req res s).log;
        },
        handle_request-fetched transfer now later l req s hdrs dest res e k o n d r c,
        handle_request-cached transfer' now' later' l' req' (fetched later req res s) hdrs' e' fresh
              page
            ∙ rw same refl,
      )

  receive-html :
      (l : Location) (code : ℕ) (lines chunks : List Bytes) (hdrs : Map Bytes)
      → l.serve_addr ≡ []
      → header_data lines [] ≡ some hdrs
      → contains_html (lookup (codes "Content-Type") hdrs) ≡ true
      → receive l (performed code lines chunks) ≡ none
  unfolding receive parse_html_body target_addr
  receive-html l code lines chunks hdrs e h k = rw (h, k, e) refl

  -- The cache handler, whose proxy handler has no address, reads out of bounds on every page of HTML
  -- that it fetches: there is no last byte of the address.
  pub handle_cached-html :
      (transfer : Bytes → Transfer) (now later : ℕ) (req : Request) (s : Stored) (dirs : Map ℤ)
      (code : ℕ) (lines chunks : List Bytes) (hdrs : Map Bytes)
      → starts_with (codes "http") req.uri ≡ true
      → parse_cache_hdrs trim req.headers ≡ some dirs
      → lookup req.uri s.pages ≡ none
      → given dirs (codes "only-if-cached") ≡ false
      → given dirs (codes "no-store") ≡ false
      → transfer req.uri ≡ performed code lines chunks
      → header_data lines [] ≡ some hdrs
      → contains_html (lookup (codes "Content-Type") hdrs) ≡ true
      → handle_cached trim transfer now later req s ≡ none
  unfolding handle_cached handle_request destination
  handle_cached-html transfer now later req s dirs code lines chunks hdrs u e k o n t h c =
      rw
        (
          e,
          cache_control-absent now dirs req.uri (given dirs (codes "no-cache")) s.pages k o n,
          u,
          t,
          receive-html (record { serve_addr = []; proxy_addr = [] }) code lines chunks hdrs refl h
              c,
        )
        refl
