-- ===== src/Server/Roots.antt =====
-- The roots of static locations, as the constructor of `server` leaves them.
use cs130capstoneproject.Base.{
  ◌≡◌, ◌≢◌, refl, sym, ap, ◌∙◌, inl, inr, Option, none, some, List, [], ◌∷◌, ◌++◌, arith, All,
  Bool-cases,
}
use mathlib.Core.Option.{some_inj}
use cs130capstoneproject.Base.Bytes.{Bytes, codes, equal, equal_iff, equal_refl}
use cs130capstoneproject.Base.Map.{Map, lookup, lookup-assign}
use cs130capstoneproject.Config.Syntax.{Config}
use cs130capstoneproject.Port.Blocks.{ConfigBlock}
use cs130capstoneproject.Static.Paths.{init, without_marks, set_root}
use cs130capstoneproject.Static.Roots.{root_of}
use cs130capstoneproject.Static.Locations.{quoted, root_block, init-root, without_marks_lem}
use cs130capstoneproject.Server.Handlers.{
  Handler, static_file_handler, Registry, with_roots, create_handler, construct,
}
use cs130capstoneproject.Server.Laws.{Lacks, construct-last, construct-step, with_handler}

-- No block has this location, whatever marks its prefix is in.
abbrev pub LacksLocation : Bytes → List ConfigBlock → Type 0
LacksLocation location blocks = All (λ b. without_marks b.prefix ≢ some location) blocks

set_root-other :
    (location : Bytes) (place root : Option Bytes) (roots roots' : Map Bytes)
    → place ≢ some location
    → set_root place root roots ≡ some roots'
    → root_of location roots' ≡ root_of location roots
set_root-other location none none roots roots' ne e = cc
set_root-other location none (some root) roots roots' ne e = cc
set_root-other location (some place) none roots roots' ne e = cc
set_root-other location (some place) (some root) roots roots' ne e =
    ground (arith, e, ne, equal_iff place location, lookup-assign place location root roots)

init-other :
    (location path : Bytes) (config : Config) (roots roots' : Map Bytes)
    → without_marks path ≢ some location
    → init path config roots ≡ some roots'
    → root_of location roots' ≡ root_of location roots
unfolding init
init-other location path config roots roots' ne e =
    set_root-other location (without_marks path) _ roots roots' ne e

with_roots-some :
    (o : Option (Map Bytes)) (h : Handler) (roots : Map Bytes)
    → with_roots o ≡ some (h, roots)
    → (h ≡ static_file_handler) × (o ≡ some roots)
with_roots-some none h roots e = cc
with_roots-some (some r) h roots e = grind arith

-- A location with its files in a directory.
abbrev pub static_site : Bytes → Bytes → ConfigBlock
static_site location directory = record {
  prefix = quoted location;
  handler_type = codes "StaticHandler";
  content = root_block (b'/' ∷ directory);
}

Lacks-location :
    (location : Bytes) (blocks : List ConfigBlock)
    → LacksLocation location blocks
    → Lacks (quoted location) blocks
Lacks-location location [] h = tt
Lacks-location location (b ∷ blocks) (ne, h) = (
  elim (Bool-cases (equal b.prefix (quoted location))) [
    | inr other ↦ other
    | inl same ↦ absurd (
        ne (
          ap without_marks ((equal_iff b.prefix (quoted location)).0 same)
          ∙ without_marks_lem location))
  ],
  Lacks-location location blocks h,
)

module _ (trim_quotes : Bytes → Bytes) where
  create_handler-other :
      (location path : Bytes) (b : ConfigBlock) (roots roots' : Map Bytes) (h : Handler)
      → without_marks path ≢ some location
      → create_handler trim_quotes path b roots ≡ some (h, roots')
      → root_of location roots' ≡ root_of location roots
  unfolding create_handler
  create_handler-other location path b roots roots' h ne e =
      elim (Bool-cases (equal b.handler_type (codes "StaticHandler"))) [
        | inl static ↦
            init-other location path b.content roots roots' ne
              (with_roots-some (init path b.content roots) h roots' (rw static at e)).1
        | inr other ↦ ground (arith, e, other)
      ]

  construct-others_root :
      (location : Bytes) (blocks : List ConfigBlock) (r r' : Registry)
      → LacksLocation location blocks
      → construct trim_quotes blocks r ≡ some r'
      → root_of location r'.roots ≡ root_of location r.roots
  construct-others_root location [] r r' lacks e = unfold construct in ground (arith, e)
  construct-others_root location (b ∷ blocks) r r' (other, others) e =
      let (h, roots, m, rest) = construct-step trim_quotes b blocks r r' e in
      construct-others_root location blocks (with_handler trim_quotes b.prefix h roots r) r' others
        rest
      ∙ create_handler-other location b.prefix b r.roots roots h other m

  create_handler-site :
      (location directory : Bytes) (roots roots' : Map Bytes) (h : Handler)
      → create_handler trim_quotes (quoted location) (static_site location directory) roots
        ≡ some (h, roots')
      → (h ≡ static_file_handler) × (root_of location roots' ≡ b'/' ∷ directory)
  unfolding create_handler equal
  create_handler-site location directory roots roots' h e =
      let made =
        with_roots-some (init (quoted location) (root_block (b'/' ∷ directory)) roots) h roots' e in
      let (after, returns, root) = init-root location directory location roots in
      (
        made.0,
        ap (root_of location) (some_inj.0 (sym made.1 ∙ returns))
            ∙ root
            ∙ rw (equal_refl location) refl,
      )

  -- The root of a location, behind the constructor.
  pub construct-root :
      (before behind : List ConfigBlock) (location directory : Bytes) (r r' : Registry)
      → construct trim_quotes (before ++ static_site location directory ∷ behind) r ≡ some r'
      → LacksLocation location behind
      → root_of location r'.roots ≡ b'/' ∷ directory
  construct-root [] behind location directory r r' e last =
      let site = static_site location directory in
      let (h, roots, m, rest) = construct-step trim_quotes site behind r r' e in
      construct-others_root location behind (with_handler trim_quotes site.prefix h roots r) r' last
        rest
      ∙ (create_handler-site location directory r.roots roots h m).1
  construct-root (a ∷ before) behind location directory r r' e last =
      let (h, roots, m, rest) =
        construct-step trim_quotes a (before ++ static_site location directory ∷ behind) r r' e in
      construct-root before behind location directory (with_handler trim_quotes a.prefix h roots r)
        r' rest last

  pub construct-site :
      (before behind : List ConfigBlock) (location directory : Bytes) (r r' : Registry)
      → construct trim_quotes (before ++ static_site location directory ∷ behind) r ≡ some r'
      → LacksLocation location behind
      → lookup (quoted location) r'.handlers ≡ some (some static_file_handler)
  construct-site before behind location directory r r' e last =
      let (h, roots, roots', made, there) =
        construct-last trim_quotes before (static_site location directory) behind r r' e
          (Lacks-location location behind last) in
      there
      ∙ ap (λ h'. some (some h')) (create_handler-site location directory roots roots' h made).0
