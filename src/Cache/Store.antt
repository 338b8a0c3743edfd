-- ===== src/Cache/Store.antt =====
-- The cache operations of `ProxyHandler` behind `cache_control`.
use cs130capstoneproject.Base.{ℕ, Option, none, some, []}
use cs130capstoneproject.Base.Bytes.{Bytes, codes}
use cs130capstoneproject.Base.Map.{Map, lookup, insert, assign}
use cs130capstoneproject.Http.Status
use cs130capstoneproject.Http.Response.{Response}
use cs130capstoneproject.Handlers.Log.{Log, add_record}
use cs130capstoneproject.Cache.Page.{Page, new_page, get_cache}

-- `store_cache`: `std::map::insert`
unfoldable pub store_cache : ℕ → Bytes → Response → Map Page → Map Page
store_cache now uri res pages = insert uri (new_page now res) pages

-- `use_cache`, which writes to the log that the handlers share; `at` throws where there is no page.
unfoldable pub use_cache : Bytes → Map Page → Log → Option (Response × Log)
use_cache uri pages log = elim (lookup uri pages) [
  | none ↦ none
  | some p ↦ some (get_cache p, add_record uri (codes "ProxyHandler") Status.not_modified log)
]

-- `no_cache`; the body is the empty string
abbrev pub no_cache : Response
no_cache = record {
  code = Status.gateway_timeout;
  headers =
      assign (codes "Connection") (codes "close")
        (assign (codes "Content-type") (codes "text/plain") []);
  body = [];
  src_type = 0;
}
