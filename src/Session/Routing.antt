-- ===== src/Session/Routing.antt =====
-- The search for the handler of a request in `session::good_request`.
use cs130capstoneproject.Base.{
  ℕ, zero, suc, Bool, true, false, Option, none, some, [], ◌∷◌, ◌++◌, length, take, if◌then◌else◌,
}
use cs130capstoneproject.Base.Bytes.{Bytes, codes, starts_with, find_last}
use cs130capstoneproject.Base.Map.{Map, lookup}

-- The keys of the map of handlers are in quotation marks, as in the configuration file.
abbrev pub quoted : Bytes → Bytes
quoted prefix = b'"' ∷ (prefix ++ b'"' ∷ [])

-- A link goes to the handler of "/http".
unfoldable pub first_key : Bytes → Bytes
first_key prefix =
    if starts_with (codes "http") prefix then quoted (codes "/http") else quoted prefix

module _ {ℓ} {V : Type ℓ} where
  -- The loop: whether a handler is found, and the key. A round takes fuel.
  unfoldable pub search : ℕ → Map V → Bytes → Bytes → Option (Bool × Bytes)
  search zero handlers prefix key = none
  search (suc f) handlers prefix key = elim (lookup key handlers) [
    | some handler ↦ some (true, key)
    | none ↦ elim (find_last b'/' prefix) [
      | none ↦ some (false, key)
      | some pos ↦ search f handlers (take pos prefix) (quoted (take pos prefix))
    ]
  ]

  -- Every round but the last makes the prefix shorter.
  unfoldable pub route : Map V → Bytes → Option (Bool × Bytes)
  route handlers uri = search (suc (length uri)) handlers uri (first_key uri)
