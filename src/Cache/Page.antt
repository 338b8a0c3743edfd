-- ===== src/Cache/Page.antt =====
-- src/cached_page.cc. Times are seconds since the epoch, and `now` is what `time(0)` returns; it is
-- not before the time at which the page was stored.
use cs130capstoneproject.Base.{ℕ, ◌+◌, Bool}
use cs130capstoneproject.Base.Int.{ℤ, pos_part, neg_part}
use cs130capstoneproject.Base.{ltb}
use cs130capstoneproject.Http.Response.{Response}

-- the default age set by the server, in seconds
abbrev pub one_min : ℕ
one_min = 60

pub record Page : Type 0 where
  pub response : Response
  pub time_start : ℕ
  pub max_age : ℕ

-- the constructor, with the default age
abbrev pub new_page : ℕ → Response → Page
new_page now res = record { response = res; time_start = now; max_age = one_min }

-- time(0) - time_start > max, with the terms of `max` on the sides where they are positive
unfoldable pub is_expired : ℕ → Page → ℤ → Bool
is_expired now p max = ltb (p.time_start + pos_part max) (now + neg_part max)

-- time(0) > time_start + min_fresh
unfoldable pub is_fresh : ℕ → Page → ℤ → Bool
is_fresh now p min_fresh = ltb (p.time_start + pos_part min_fresh) (now + neg_part min_fresh)

-- time(0) - time_start - max_age < max_stale, where the left side fits an int, into which it is
-- narrowed
unfoldable pub could_stale : ℕ → Page → ℤ → Bool
could_stale now p max_stale =
    ltb (now + neg_part max_stale) (p.time_start + p.max_age + pos_part max_stale)

abbrev pub get_cache : Page → Response
get_cache p = p.response

abbrev pub update_cache : Page → Response → Page
update_cache p res = record p { response = res }

abbrev pub update_age : Page → ℕ → Page
update_age p age = record p { max_age = age }
