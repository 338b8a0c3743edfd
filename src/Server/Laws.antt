-- ===== src/Server/Laws.antt =====
-- What the constructor of `server` registers.
use cs130capstoneproject.Base.{
  ◌≡◌, ◌≢◌, refl, ◌∙◌, false, Option, none, some, List, [], ◌∷◌, ◌++◌, arith, All,
}
use cs130capstoneproject.Base.Bytes.{Bytes, equal, equal_refl}
use cs130capstoneproject.Base.Map.{Map, lookup, assign, lookup-assign}
use cs130capstoneproject.Port.Blocks.{ConfigBlock}
use cs130capstoneproject.Server.Handlers.{
  Handler, Registry, create_handler, and_then, register, construct,
}

-- Whether a map of pointers has no null pointer.
abbrev pub NoNull : Map (Option Handler) → Type 0
NoNull m = (key : Bytes) → lookup key m ≢ some none

-- The blocks have other prefixes than a key.
abbrev pub Lacks : Bytes → List ConfigBlock → Type 0
Lacks key blocks = All (λ b. equal b.prefix key ≡ false) blocks

module _ (trim_quotes : Bytes → Bytes) where
  abbrev pub made : ConfigBlock → Registry → Option (Handler × Map Bytes)
  made b r = create_handler trim_quotes b.prefix b r.roots

  abbrev pub with_handler : Bytes → Handler → Map Bytes → Registry → Registry
  with_handler prefix h roots r = record {
    handlers = assign prefix (some h) r.handlers;
    roots = roots;
  }

  step_from :
      (prefix : Bytes) (m : Option (Handler × Map Bytes)) (blocks : List ConfigBlock)
      (r r' : Registry)
      → and_then trim_quotes (construct trim_quotes blocks) (register trim_quotes prefix m r)
        ≡ some r'
      → (h : Handler) × (roots : Map Bytes) × (m ≡ some (h, roots))
        × (construct trim_quotes blocks (with_handler prefix h roots r) ≡ some r')
  step_from prefix none blocks r r' e = cc
  step_from prefix (some (h, roots)) blocks r r' e = (h, roots, refl, e)

  pub construct-step :
      (b : ConfigBlock) (blocks : List ConfigBlock) (r r' : Registry)
      → construct trim_quotes (b ∷ blocks) r ≡ some r'
      → (h : Handler) × (roots : Map Bytes) × (made b r ≡ some (h, roots))
        × (construct trim_quotes blocks (with_handler b.prefix h roots r) ≡ some r')
  unfolding construct
  construct-step b blocks r r' e = step_from b.prefix (made b r) blocks r r' e

  construct-others :
      (key : Bytes) (blocks : List ConfigBlock) (r r' : Registry)
      → Lacks key blocks
      → construct trim_quotes blocks r ≡ some r'
      → lookup key r'.handlers ≡ lookup key r.handlers
  construct-others key [] r r' none_left e = unfold construct in ground (arith, e)
  construct-others key (b ∷ blocks) r r' (other, others) e =
      let (h, roots, m, rest) = construct-step b blocks r r' e in
      construct-others key blocks (with_handler b.prefix h roots r) r' others rest
      ∙ lookup-assign b.prefix key (some h) r.handlers
      ∙ rw other refl

  -- Where the constructor ends, the handler that is registered for a prefix is the one that
  -- `createHandler` makes of the last block with this prefix.
  pub construct-last :
      (before : List ConfigBlock) (b : ConfigBlock) (behind : List ConfigBlock) (r r' : Registry)
      → construct trim_quotes (before ++ b ∷ behind) r ≡ some r'
      → Lacks b.prefix behind
      → (h : Handler) × (roots roots' : Map Bytes) × (create_handler trim_quotes b.prefix b roots
          ≡ some (h, roots'))
        × (lookup b.prefix r'.handlers ≡ some (some h))
  construct-last [] b behind r r' e last =
      let (h, roots, m, rest) = construct-step b behind r r' e in
      (
        h,
        r.roots,
        roots,
        m,
        construct-others b.prefix behind (with_handler b.prefix h roots r) r' last rest
            ∙ lookup-assign b.prefix b.prefix (some h) r.handlers
            ∙ rw (equal_refl b.prefix) refl,
      )
  construct-last (a ∷ before) b behind r r' e last =
      let (h, roots, m, rest) = construct-step a (before ++ b ∷ behind) r r' e in
      construct-last before b behind (with_handler a.prefix h roots r) r' rest last

  construct-NoNull :
      (blocks : List ConfigBlock) (r r' : Registry)
      → NoNull r.handlers
      → construct trim_quotes blocks r ≡ some r'
      → NoNull r'.handlers
  construct-NoNull [] r r' filled e = unfold construct in λ key n. filled key (ground (arith, e, n))
  construct-NoNull (b ∷ blocks) r r' filled e =
      let (h, roots, m, rest) = construct-step b blocks r r' e in
      construct-NoNull blocks (with_handler b.prefix h roots r) r'
        (λ key n. filled key (ground (arith, lookup-assign b.prefix key (some h) r.handlers, n)))
        rest
