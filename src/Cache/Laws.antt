-- ===== src/Cache/Laws.antt =====
-- When the cache answers, and what it keeps.
use cs130capstoneproject.Base.{
  ℕ, ◌+◌, ◌<◌, ◌≤◌, ◌≡◌, ◌↔◌, refl, Bool, true, false, Option, none, some, arith, if◌then◌else◌,
  not, ◌&&◌,
}
use cs130capstoneproject.Base.Bytes.{Bytes, codes, equal, equal_iff}
use cs130capstoneproject.Base.Map.{Map, lookup, lookup-insert, lookup-erase}
use cs130capstoneproject.Base.Int.{ℤ, pos_part, neg_part}
use cs130capstoneproject.Http.Status
use cs130capstoneproject.Http.Response.{Response}
use cs130capstoneproject.Handlers.Log.{Log, add_record}
use cs130capstoneproject.Cache.Page.{Page, new_page, is_expired, is_fresh, could_stale}
use cs130capstoneproject.Cache.Control.{
  directive, given, check_age, check_fresh, decide, cache_control,
}
use cs130capstoneproject.Cache.Store.{store_cache, use_cache}

module _ (now : ℕ) (hdrs : Map ℤ) (p : Page) where
  abbrev Has : Bytes → Type 0
  Has name = given hdrs name ≡ true

  -- The value of a directive, and its positive and negative parts.
  abbrev over : Bytes → ℕ
  over name = pos_part (directive hdrs name)

  abbrev under : Bytes → ℕ
  under name = neg_part (directive hdrs name)

  -- What the directives ask of a page. With min-fresh, only that more seconds than its value have gone
  -- by since the page was stored. Else, that no more than max-age have gone by; that of the seconds
  -- gone by, fewer than max-stale are beyond the own age of the page; and if both are given, that
  -- max-age is not the larger. The negative part of a value stands on the other side.
  pub record Suits : Type 0 where
    pub fresh :
        Has (codes "min-fresh")
        → p.time_start + over (codes "min-fresh") < now + under (codes "min-fresh")
    pub age :
        given hdrs (codes "min-fresh") ≡ false
        → Has (codes "max-age")
        → now + under (codes "max-age") ≤ p.time_start + over (codes "max-age")
    pub stale :
        given hdrs (codes "min-fresh") ≡ false
        → Has (codes "max-stale")
        → now + under (codes "max-stale") < p.time_start + p.max_age + over (codes "max-stale")
    pub both :
        given hdrs (codes "min-fresh") ≡ false
        → Has (codes "max-age")
        → Has (codes "max-stale")
        → over (codes "max-age") + under (codes "max-stale")
          ≤ over (codes "max-stale") + under (codes "max-age")

  Suits-IsUsed : Suits → (check_fresh now hdrs p (check_age now hdrs p)).0 ≡ true
  unfolding check_fresh check_age is_fresh is_expired could_stale
  Suits-IsUsed s = ground (arith, s.fresh, s.age, s.stale, s.both)

  used-Suits : (check_fresh now hdrs p (check_age now hdrs p)).0 ≡ true → Suits
  unfolding check_fresh check_age is_fresh is_expired could_stale
  used-Suits h = record {
    fresh = λ f. ground arith;
    age = λ f a. ground arith;
    stale = λ f a. ground arith;
    both = λ f a b. ground arith;
  }

-- When a page answers a request.
pub record Answers (now : ℕ) (hdrs : Map ℤ) (uri : Bytes) (must_validate : Bool) (pages : Map Page)
    : Type 0 where
  pub unvalidated : must_validate ≡ false
  pub page : Page
  pub stored : lookup uri pages ≡ some page
  pub storable : given hdrs (codes "no-store") ≡ false
  pub suits : Suits now hdrs page

decide-Answers :
    (now : ℕ) (hdrs : Map ℤ) (uri : Bytes) (m : Bool) (pages : Map Page) (found : Option Page)
    → lookup uri pages ≡ found
    → (decide now hdrs uri m pages found).can_use ≡ true
    → Answers now hdrs uri m pages
decide-Answers now hdrs uri true pages p e h = ground arith
decide-Answers now hdrs uri false pages none e h = ground arith
decide-Answers now hdrs uri false pages (some p) e h = record {
  unvalidated = refl;
  page = p;
  stored = e;
  storable = ground arith;
  suits = used-Suits now hdrs p (ground arith);
}

pub cache_control-can_use_iff :
    (now : ℕ) (hdrs : Map ℤ) (uri : Bytes) (must_validate : Bool) (pages : Map Page)
    → ((cache_control now hdrs uri must_validate pages).can_use ≡ true)
      ↔ Answers now hdrs uri must_validate pages
unfolding cache_control
cache_control-can_use_iff now hdrs uri m pages = (
  decide-Answers now hdrs uri m pages (lookup uri pages) refl,
  λ a. ground (arith, a.unvalidated, a.stored, a.storable, Suits-IsUsed now hdrs a.page a.suits),
)

-- Deciding leaves every page as it is, but for the page of the request itself, which `no-store`
-- removes when no validation is asked for.
pub lookup-cache_control :
    (now : ℕ) (hdrs : Map ℤ) (uri k : Bytes) (must_validate : Bool) (pages : Map Page)
    → lookup k (cache_control now hdrs uri must_validate pages).pages ≡ (
        if not must_validate && (given hdrs (codes "no-store") && equal uri k)
        then none
        else lookup k pages)
unfolding cache_control
lookup-cache_control now hdrs uri k m pages =
    ground (arith, lookup-erase uri k pages, equal_iff uri k)

-- A response stored for a URI is what the cache gives for that URI, with a record in the log, unless
-- a page was there before, which stays and goes on being given. Nothing changes for other URIs.
pub use_cache-store_cache :
    (now : ℕ) (uri k : Bytes) (res : Response) (pages : Map Page) (log : Log)
    → use_cache k (store_cache now uri res pages) log ≡ elim (use_cache k pages log) [
      | some old ↦ some old
      | none ↦
          if equal uri k
          then some (res, add_record k (codes "ProxyHandler") Status.not_modified log)
          else none
    ]
unfolding use_cache store_cache
use_cache-store_cache now uri k res pages log =
    ground (arith, lookup-insert uri k (new_page now res) pages)

-- A page is used at any time, however old, by a request that names none of max-age, max-stale,
-- min-fresh and no-store and does not ask for validation.
pub cache_control-no_directive :
    (now : ℕ) (hdrs : Map ℤ) (uri : Bytes) (pages : Map Page) (p : Page)
    → lookup uri pages ≡ some p
    → given hdrs (codes "max-age") ≡ false
    → given hdrs (codes "max-stale") ≡ false
    → given hdrs (codes "min-fresh") ≡ false
    → given hdrs (codes "no-store") ≡ false
    → (cache_control now hdrs uri false pages).can_use ≡ true
cache_control-no_directive now hdrs uri pages p e a s f n =
    (cache_control-can_use_iff now hdrs uri false pages).1 (record {
      unvalidated = refl;
      page = p;
      stored = e;
      storable = n;
      suits = record {
        fresh = λ h. ground arith;
        age = λ _ h. ground arith;
        stale = λ _ h. ground arith;
        both = λ _ h. ground arith;
      };
    })
