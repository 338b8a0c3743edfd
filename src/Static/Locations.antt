-- ===== src/Static/Locations.antt =====
-- What `Init` of the handler of static files reads from the block of a location.
use cs130capstoneproject.Base.{
  ◌-◌, ◌≡◌, refl, ap, true, some, [], ◌∷◌, ◌++◌, append-nil, append_assoc, arith, leb, length,
  length-append, take_self, if◌then◌else◌,
}
use cs130capstoneproject.Base.Bytes.{Bytes, codes, equal, find}
use cs130capstoneproject.Base.Find.{find_byte}
use cs130capstoneproject.Base.Map.{Map, assign, lookup-assign}
use cs130capstoneproject.Config.Syntax.{
  simple, Config, nil, cons, config_to_string, statement_to_string, join, indent,
}
use cs130capstoneproject.Static.Paths.{init, but_three, without_marks, root_from}
use cs130capstoneproject.Static.Roots.{root_of}

abbrev pub quoted : Bytes → Bytes
quoted s = b'"' ∷ (s ++ b'"' ∷ [])

but_three_lem : (root : Bytes) → but_three (root ++ codes "\";\n") ≡ root
but_three_lem root =
    let l = length-append root (codes "\";\n") in
    let e : length (root ++ codes "\";\n") - 3 ≡ length root = omega (arith, l) in
    let h : leb 3 (length (root ++ codes "\";\n")) ≡ true = ground (arith, l) in
    rw (h, e) (take_self root (codes "\";\n"))

pub without_marks_lem : (s : Bytes) → without_marks (quoted s) ≡ some s
without_marks_lem s =
    let e : length (s ++ b'"' ∷ []) - 1 ≡ length s = omega (arith, length-append s (b'"' ∷ [])) in
    rw e (ap some (take_self s (b'"' ∷ [])))

abbrev pub root_block : Bytes → Config
root_block root = cons (simple (codes "root" ∷ quoted root ∷ [])) nil

root_block-text :
    (root : Bytes)
    → config_to_string 0 (root_block root) ≡ codes "root \"" ++ (root ++ codes "\";\n")
unfolding config_to_string statement_to_string join indent
root_block-text root = simp (append_assoc, append-nil)

root_from_block :
    (rest : Bytes)
    → let path = config_to_string 0 (root_block (b'/' ∷ rest)) in
      root_from path (find (codes "/") path) ≡ some (b'/' ∷ rest)
root_from_block rest =
    rw
      (
        root_block-text (b'/' ∷ rest),
        find_byte b'/' (codes "root \"") (rest ++ codes "\";\n") (ground arith),
      )
      (ap some (but_three_lem (b'/' ∷ rest)))

-- A static location whose block is `root "DIR";`, where DIR begins with a slash, has DIR as its root
-- from then on; the other locations keep theirs.
pub init-root :
    (location rest k : Bytes) (roots : Map Bytes)
    → (roots' : Map Bytes) × (init (quoted location) (root_block (b'/' ∷ rest)) roots ≡ some roots')
      × (root_of k roots' ≡ (if equal location k then b'/' ∷ rest else root_of k roots))
unfolding init
init-root location rest k roots = (
  assign location (b'/' ∷ rest) roots,
  rw (without_marks_lem location, root_from_block rest) refl,
  ground (arith, lookup-assign location k (b'/' ∷ rest) roots),
)
