-- ===== src/Cache/Control.antt =====
-- `ProxyHandler::cache_control`: what to do with the cache, by the directives of the request.
use cs130capstoneproject.Base.{ℕ, Bool, true, false, not, ◌&&◌, Option, none, some, if◌then◌else◌}
use cs130capstoneproject.Base.Bytes.{Bytes, codes}
use cs130capstoneproject.Base.Map.{Map, lookup, erase}
use cs130capstoneproject.Base.Int.{ℤ, pos, ltb_ℤ, is_zero}
use cs130capstoneproject.Cache.Page.{Page, is_expired, is_fresh, could_stale}

-- cache_hdrs[name]: 0 where it is missing
abbrev pub value_of : Option ℤ → ℤ
value_of none = pos 0
value_of (some n) = n

unfoldable pub directive : Map ℤ → Bytes → ℤ
directive hdrs name = value_of (lookup name hdrs)

-- a directive as a condition
abbrev pub given : Map ℤ → Bytes → Bool
given hdrs name = not (is_zero (directive hdrs name))

-- The three reference parameters, the returned value, and the static map of pages.
pub record Decision : Type 0 where
  pub can_use : Bool
  pub cache_only : Bool
  pub should_cache : Bool
  pub result : Bool
  pub pages : Map Page

-- The tests of max-age and max-stale: whether the page can be used, and the returned value.
unfoldable pub check_age : ℕ → Map ℤ → Page → Bool × Bool
check_age now hdrs p =
    let max_age = directive hdrs (codes "max-age") in
    let max_stale = directive hdrs (codes "max-stale") in
    if given hdrs (codes "max-age") && given hdrs (codes "max-stale")
    then (if not (not (ltb_ℤ max_stale max_age) && could_stale now p max_stale)
        then (false, true)
        else if is_expired now p max_age
        then (false, true)
        else (true, true))
    else if given hdrs (codes "max-age")
    then (not (is_expired now p max_age), not (is_expired now p max_age))
    else if given hdrs (codes "max-stale")
    then (could_stale now p max_stale, could_stale now p max_stale)
    else (true, true)

-- The test of min-fresh, which replaces the verdict on the page.
unfoldable pub check_fresh : ℕ → Map ℤ → Page → Bool × Bool → Bool × Bool
check_fresh now hdrs p (can_use, result) =
    if given hdrs (codes "min-fresh")
    then (if is_fresh now p (directive hdrs (codes "min-fresh"))
        then (true, result)
        else (false, false))
    else (can_use, result)

abbrev pub when_present : Map ℤ → Bytes → Map Page → Bool × Bool → Decision
when_present hdrs uri pages (can_use, result) =
    if given hdrs (codes "no-store")
    then record {
      can_use = false;
      cache_only = false;
      should_cache = true;
      result = true;
      pages = erase uri pages;
    }
    else record {
      can_use = can_use;
      cache_only = false;
      should_cache = true;
      result = result;
      pages = pages;
    }

abbrev pub when_absent : Map ℤ → Bool → Map Page → Decision
when_absent hdrs must_validate pages = record {
  can_use = false;
  cache_only = not must_validate && given hdrs (codes "only-if-cached");
  should_cache = not (given hdrs (codes "no-store"));
  result = true;
  pages = pages;
}

abbrev pub decide : ℕ → Map ℤ → Bytes → Bool → Map Page → Option Page → Decision
decide now hdrs uri true pages p = when_absent hdrs true pages
decide now hdrs uri false pages none = when_absent hdrs false pages
decide now hdrs uri false pages (some p) =
    when_present hdrs uri pages (check_fresh now hdrs p (check_age now hdrs p))

-- The reference parameters come in as `handleRequest` sets them: can_use and cache_only false,
-- should_cache true. The clock is taken to stand still during the call.
unfoldable pub cache_control : ℕ → Map ℤ → Bytes → Bool → Map Page → Decision
cache_control now hdrs uri must_validate pages =
    decide now hdrs uri must_validate pages (lookup uri pages)
