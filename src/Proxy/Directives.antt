-- ===== src/Proxy/Directives.antt =====
-- `ProxyHandler::parse_cache_hdrs`: the directives of a Cache-Control header.
use cs130capstoneproject.Base.{
  ℕ, zero, suc, Bool, true, false, not, ◌||◌, Option, none, some, [], ◌∷◌, ltb, leb, ◌==◌, length,
  take, drop, get_last?, if◌then◌else◌,
}
use cs130capstoneproject.Base.Bytes.{Bytes, codes, find, is_digit, is_space}
use cs130capstoneproject.Base.Map.{Map, lookup, assign}
use cs130capstoneproject.Base.Int.{ℤ, pos, negsuc}
use cs130capstoneproject.RequestParser.Numbers.{digits_value, skip_space}
use cs130capstoneproject.RequestParser.HeaderMap.{or_empty}

abbrev pub negate : ℕ → ℤ
negate zero = pos 0
negate (suc n) = negsuc n

-- The number behind the sign, if there is one that fits an `int`.
unfoldable pub stoi_digits : Bool → Bytes → Option ℤ
unfolding digits_value is_digit
stoi_digits negative [] = none
stoi_digits negative (c ∷ s) =
    let n = digits_value 0 (c ∷ s) in
    if not (is_digit c)
    then none
    else if negative
    then (if leb n 2147483648 then some (negate n) else none)
    else if ltb n 2147483648
    then some (pos n)
    else none

unfoldable pub stoi_sign : Bytes → Option ℤ
unfolding stoi_digits
stoi_sign [] = none
stoi_sign (c ∷ s) =
    if c == b'-'
    then stoi_digits true s
    else if c == b'+'
    then stoi_digits false s
    else stoi_digits false (c ∷ s)

-- std::stoi in base ten; `none` is an exception.
unfoldable pub stoi : Bytes → Option ℤ
unfolding stoi_sign skip_space is_space
stoi s = stoi_sign (skip_space s)

abbrev pub found : Option ℕ → Bool
found none = false
found (some p) = true

-- Whether a directive has a value, by the name that stands anywhere in it.
unfoldable pub has_value : Bytes → Bool
has_value token =
    found (find (codes "max-age") token)
    || found (find (codes "max-stale") token)
    || found (find (codes "min-fresh") token)

-- What the loop over the value leaves in `isNum`: the test of its last byte.
abbrev pub is_num : Option ℕ → Bool
is_num none = true
is_num (some c) = is_digit c

abbrev pub value_behind : Bytes → Option ℤ
value_behind given_val = if is_num (get_last? given_val) then stoi given_val else some (negsuc 0)

-- The name and the value of a directive, by the position of its equals sign.
abbrev pub split_at : Bytes → Option ℕ → Bytes × Bytes
split_at token none = (token, token)
split_at token (some p) = (take p token, drop (suc p) token)

abbrev pub add_value : Bytes → Option ℤ → Map ℤ → Option (Map ℤ)
add_value name none m = none
add_value name (some val) m = some (assign name val m)

-- A directive that is trimmed, put in the map.
unfoldable pub add_directive : Bytes → Map ℤ → Option (Map ℤ)
add_directive token m =
    if has_value token
    then (let (name, given_val) = split_at token (find (codes "=") token) in
        add_value name (value_behind given_val) m)
    else some (assign token (pos 1) m)

abbrev pub bind_map : Option (Map ℤ) → (Map ℤ → Option (Map ℤ)) → Option (Map ℤ)
bind_map none k = none
bind_map (some m) k = k m

-- `boost::trim` is a parameter.
module _ (trim : Bytes → Bytes) where
  -- The loop over the commas, and the last directive. A round takes fuel.
  unfoldable pub read_directives : ℕ → Bytes → Map ℤ → Option (Map ℤ)
  read_directives zero cache_dirs m = none
  read_directives (suc f) cache_dirs m = elim (find (codes ",") cache_dirs) [
    | none ↦ add_directive (trim cache_dirs) m
    | some p ↦
        bind_map (add_directive (trim (take p cache_dirs)) m)
          (read_directives f (drop (suc p) cache_dirs))
  ]

  -- A round takes a comma; `none` is an exception of `stoi`.
  unfoldable pub parse_cache_hdrs : Map Bytes → Option (Map ℤ)
  parse_cache_hdrs req_hdrs =
      let cache_dirs = or_empty (lookup (codes "Cache-Control") req_hdrs) in
      read_directives (suc (length cache_dirs)) cache_dirs []
