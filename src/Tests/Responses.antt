-- ===== src/Tests/Responses.antt =====
-- The theorems on responses, on the log and on the cache at concrete inputs.
use cs130capstoneproject.Base.{ℕ, ◌≡◌, none, some, [], ◌∷◌, arith, if◌then◌else◌}
use cs130capstoneproject.Base.Bytes.{codes, equal}
use cs130capstoneproject.Base.Map.{Map}
use cs130capstoneproject.Base.Int.{ℤ, pos}
use cs130capstoneproject.RequestParser.Numbers.{stoull}
use cs130capstoneproject.Http.Decimal.{to_string, stoull-to_string}
use cs130capstoneproject.Http.Status
use cs130capstoneproject.Http.Response.{Response}
use cs130capstoneproject.Dispatcher.{dispatch}
use cs130capstoneproject.Dispatcher.Writes.{bytes_of, response_text, bytes_of-dispatch}
use cs130capstoneproject.Handlers.Log.{add_record}
use cs130capstoneproject.Cache.Page.{Page}
use cs130capstoneproject.Cache.Store.{use_cache, store_cache}
use cs130capstoneproject.Cache.Laws.{use_cache-store_cache}

abbrev image : Response
image = record { code = Status.ok; headers = []; body = codes "GIF89a"; src_type = 2 }

-- A socket that takes two bytes at once.
abbrev two_bytes : ℕ → ℕ → ℕ
two_bytes total left = 2

bytes_of-dispatch_example : bytes_of (dispatch two_bytes image) ≡ response_text image
bytes_of-dispatch_example = bytes_of-dispatch two_bytes (λ t l h. omega arith) image

stoull-to_string_example : stoull (to_string 404) ≡ some 404
stoull-to_string_example = stoull-to_string 404 (omega arith)

abbrev image_page : Page
image_page = record { response = image; time_start = 100; max_age = 60 }

abbrev image_pages : Map Page
image_pages = (codes "http://a/", image_page) ∷ []

abbrev max_age_5 : Map ℤ
max_age_5 = (codes "max-age", pos 5) ∷ []

abbrev empty_image : Response
empty_image = record image { body = [] }

use_cache-store_cache_example :
    use_cache (codes "http://a/") (store_cache 200 (codes "http://a/") empty_image image_pages) []
    ≡ elim (use_cache (codes "http://a/") image_pages []) [
      | some old ↦ some old
      | none ↦
          if equal (codes "http://a/") (codes "http://a/")
          then some (
            empty_image,
            add_record (codes "http://a/") (codes "ProxyHandler") Status.not_modified [],
          )
          else none
    ]
use_cache-store_cache_example =
    use_cache-store_cache 200 (codes "http://a/") (codes "http://a/") empty_image image_pages []
