-- ===== src/Tests/Proxies.antt =====
-- The theorems on the proxy at concrete inputs.
use cs130capstoneproject.Base.{◌≡◌, refl, false, none, some, [], ◌∷◌, ◌++◌, arith, All}
use cs130capstoneproject.Base.Bytes.{Bytes, codes, equal, find, is_space, starts_with, less}
use cs130capstoneproject.Base.{ℕ, suc, inl}
use cs130capstoneproject.RequestParser.HeaderMap.{or_empty}
use cs130capstoneproject.Base.Map.{Map, lookup, assign, erase}
use cs130capstoneproject.Base.Int.{ℤ, pos}
use cs130capstoneproject.RequestParser.Request.{Request, reset_request}
use cs130capstoneproject.RequestParser.Numbers.{skip_space}
use cs130capstoneproject.Http.Decimal.{to_string}
use cs130capstoneproject.Http.Status
use cs130capstoneproject.Http.Response.{Response}
use cs130capstoneproject.Handlers.Log.{add_record}
use cs130capstoneproject.Cache.Control.{cache_control, directive, check_fresh, check_age}
use cs130capstoneproject.Cache.Laws.{Answers, cache_control-can_use_iff}
use cs130capstoneproject.Proxy.Html.{parse_html_body, target_addr}
use cs130capstoneproject.Proxy.Links.{parse_html_body-link}
use cs130capstoneproject.Proxy.Directives.{
  has_value, add_directive, read_directives, parse_cache_hdrs,
}
use cs130capstoneproject.Proxy.Printed.{Directive, flag, timed, put_all, IsDirective}
use cs130capstoneproject.Proxy.Values.{parse_cache_hdrs-print, parse_cache_hdrs-last_byte}
use cs130capstoneproject.Proxy.Transfer.{
  Transfer, failed, performed, header_data, header_callback, header_line, message, write_callback,
}
use cs130capstoneproject.Proxy.Handler.{Location, Stored, destination, receive, handle_request}
use cs130capstoneproject.Proxy.Handler.Laws.{handle_request-cached, handle_request-again}

parse_html_body-link_example :
    (before after : Bytes) × (parse_html_body (codes "/proxy/") (codes "<a href=") ≡ some before)
    × (parse_html_body (codes "/proxy/") (codes "page\">") ≡ some after)
    × (parse_html_body (codes "/proxy/") (codes "<a href=" ++ codes "\"/page\">")
        ≡ some (before ++ b'"' ∷ (codes "/proxy" ++ b'/' ∷ after)))
unfolding target_addr
parse_html_body-link_example =
    parse_html_body-link (codes "/proxy/") (codes "/proxy") (codes "<a href=") (codes "page\">")
      refl (λ e. cc)

-- A trim for texts that have white space in front alone.
skip_space-front : (s : Bytes) → skip_space (b' ' ∷ s) ≡ skip_space s
unfolding skip_space is_space
skip_space-front s = refl

skip_space-plain : (s : Bytes) → All (λ c. is_space c ≡ false) s → skip_space s ≡ s
unfolding skip_space
skip_space-plain [] h = refl
skip_space-plain (c ∷ s) (h, hs) = rw h refl

abbrev fresh_minute : Directive
fresh_minute = timed (codes "max-age") 60

abbrev control : Bytes → Map Bytes
control s = (codes "Cache-Control", s) ∷ []

directives-IsDirective : All IsDirective (fresh_minute ∷ flag (codes "no-store") ∷ [])
unfolding has_value find starts_with is_space
directives-IsDirective = grind arith

parse_cache_hdrs-print_example :
    parse_cache_hdrs skip_space (control (codes "max-age=60, no-store"))
    ≡ some (put_all (fresh_minute ∷ flag (codes "no-store") ∷ []) [])
unfolding lookup equal to_string
parse_cache_hdrs-print_example =
    parse_cache_hdrs-print skip_space skip_space-front skip_space-plain
      (control (codes "max-age=60, no-store")) fresh_minute (flag (codes "no-store") ∷ []) refl
      directives-IsDirective

parse_cache_hdrs-last_byte_example :
    (parse_cache_hdrs skip_space (control (codes "max-age=x1")) ≡ none)
    × ((f : ℕ)
        → read_directives skip_space
            (suc f)
            (or_empty (lookup (codes "Cache-Control") (control (codes "max-age=x1"))))
            []
          ≡ none)
unfolding lookup equal is_space
parse_cache_hdrs-last_byte_example =
    parse_cache_hdrs-last_byte skip_space skip_space-front skip_space-plain
      (control (codes "max-age=x1")) (codes "max-age") [] b'x' b'1' refl (inl refl) (grind arith)
      (refl, refl, refl)

abbrev page : Response
page = record { code = Status.ok; headers = []; body = codes "abc"; src_type = 0 }

abbrev request : Request
request = record reset_request { uri = codes "http://a/" }

-- What is read of a request without a Cache-Control header.
abbrev no_directives : Map ℤ
no_directives = ([], pos 1) ∷ []

no_directives-read : parse_cache_hdrs skip_space request.headers ≡ some no_directives
unfolding parse_cache_hdrs read_directives add_directive has_value find starts_with skip_space
    lookup assign
no_directives-read = refl

abbrev location : Location
location = record { serve_addr = codes "/proxy"; proxy_addr = codes "http://b" }

abbrev stored : Stored
stored = record {
  pages = (codes "http://a/", record { response = page; time_start = 100; max_age = 60 }) ∷ [];
  log = [];
}

abbrev fails : Bytes → Transfer
fails dest = failed

stored-Answers : Answers 103 no_directives (codes "http://a/") false stored.pages
unfolding cache_control lookup equal directive check_fresh check_age
stored-Answers =
    (cache_control-can_use_iff 103 no_directives (codes "http://a/") false stored.pages).0 refl

handle_request-cached_example :
    handle_request skip_space fails 103 104 location request stored
    ≡ some (
      stored-Answers.page.response,
      record stored {
        log = add_record (codes "http://a/") (codes "ProxyHandler") Status.not_modified [];
      },
    )
unfolding lookup equal directive
handle_request-cached_example =
    handle_request-cached skip_space fails 103 104 location request stored no_directives
      no_directives-read refl stored-Answers

abbrev brings : Bytes → Transfer
brings dest = performed 200 (codes "HTTP/1.1 200 OK\r\n" ∷ []) (codes "abc" ∷ [])

abbrev nothing_stored : Stored
nothing_stored = record { pages = []; log = [] }

abbrev brought : Response
brought = record {
  code = 200;
  headers = (codes "Connection", codes "close") ∷ (codes "Content-Length", codes "3") ∷ [];
  body = codes "abc";
  src_type = 0;
}

brought-received : receive location (brings (codes "http://a/")) ≡ some brought
unfolding receive header_data header_callback find starts_with lookup assign equal to_string less
    erase message header_line write_callback
brought-received = refl

handle_request-again_example :
    (first second : Stored) × (handle_request skip_space brings 1 2 location request nothing_stored
      ≡ some (brought, first))
    × (handle_request skip_space fails 500 501 location request first ≡ some (brought, second))
unfolding lookup equal destination starts_with directive
handle_request-again_example =
    handle_request-again skip_space brings fails 1 2 500 501 location location request request
      nothing_stored no_directives no_directives (codes "http://a/") brought no_directives-read refl
      refl refl refl brought-received refl no_directives-read refl refl refl refl refl refl
