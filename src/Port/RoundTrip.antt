-- ===== src/Port/RoundTrip.antt =====
-- `port::setConfigBlocks` on the text of a list of blocks.
use cs130capstoneproject.Base.{
  ℕ, suc, ◌≤◌, ◌≡◌, refl, Bool, true, false, some, List, [], ◌∷◌, ◌++◌, append_assoc, append-nil,
  All,
}
use cs130capstoneproject.Base.Bytes.{Bytes, codes, equal}
use cs130capstoneproject.Config.Syntax.{
  Config, nil, cons, simple, block, join, indent, config_to_string, statement_to_string,
}
use cs130capstoneproject.Config.Lexer.{get_token, ends_token}
use cs130capstoneproject.Config.Lexing.{IsToken}
use cs130capstoneproject.Config.RoundTrip.Printable.{AreTokens}
use cs130capstoneproject.Port.Skips
use cs130capstoneproject.Port.Skips.{Skips, AllSimple}
use cs130capstoneproject.Port.Blocks.{ConfigBlock, header, is_listed, read_token}
use cs130capstoneproject.Port.Rounds.{skip_to-Skips}

-- What a block of a listed type may have in it, and what any other: statements that are no blocks, or
-- one of them.
abbrev pub HasBody : Bool → Config → Type 0
HasBody true c = AllSimple c
HasBody false (cons (simple ts) nil) = AreTokens ts
HasBody false _ = ⊥

abbrev pub IsSite : ConfigBlock → Type 0
IsSite b = IsToken b.prefix × IsToken b.handler_type × HasBody (is_listed b.handler_type) b.content

-- The configuration that has a location for each block.
abbrev pub config_of : List ConfigBlock → Config
config_of [] = nil
config_of (b ∷ bs) =
    cons (block (codes "location" ∷ b.prefix ∷ b.handler_type ∷ []) b.content) (config_of bs)

-- The text from the brace of a block on.
abbrev pub braced : Config → Bytes → Bytes
braced c rest = b' ' ∷ b'{' ∷ b'\n' ∷ (config_to_string 1 c ++ b'}' ∷ b'\n' ∷ rest)

pub config_of-text :
    (b : ConfigBlock) (bs : List ConfigBlock)
    → config_to_string 0 (config_of (b ∷ bs))
      ≡ codes "location"
        ++ b' '
          ∷ (b.prefix
              ++ b' ' ∷ (b.handler_type ++ braced b.content (config_to_string 0 (config_of bs))))
unfolding config_to_string statement_to_string join indent
config_of-text b bs = simp append_assoc

-- The block of a listed type.
listed_body :
    (t : Bytes) (c : Config) (rest : Bytes)
    → IsToken t
    → AllSimple c
    → Skips (codes "}") t (braced c rest) (codes "}") (b'\n' ∷ rest)
listed_body t c rest h hc =
    let body = config_to_string 1 c ++ b'}' ∷ b'\n' ∷ rest in
    Skips.Skips-trans (Skips.Skips-next (codes "}") t (braced c rest) (Skips.IsToken-ne t h).0) (
      rw (Skips.get_token-space (b'{' ∷ b'\n' ∷ body), Skips.get_token-open (b'\n' ∷ body))
        (Skips.Skips-trans
          (Skips.Skips-next (codes "}") (codes "{") (b'\n' ∷ body) (unfold equal in refl))
          (rw (Skips.get_token-newline body) (Skips.Skips-body c (b'\n' ∷ rest) hc))))

tokens-ne-end :
    (ts : List Bytes) → All IsToken ts → All (λ u. IsToken u × (equal u (codes ";") ≡ false)) ts
tokens-ne-end [] h = tt
tokens-ne-end (t ∷ ts) (h, hs) = ((h, (Skips.IsToken-ne t h).1), tokens-ne-end ts hs)

static_body :
    (ts : List Bytes) (rest : Bytes)
    → AreTokens ts
    → let text = config_to_string 1 (cons (simple ts) nil) ++ b'}' ∷ b'\n' ∷ rest in
      Skips
        (codes ";")
        (get_token text).0
        (get_token text).1
        (codes ";")
        (b'\n' ∷ b'}' ∷ b'\n' ∷ rest)
unfolding config_to_string statement_to_string
static_body [] rest (ne, _) = absurd (ne refl)
static_body (t ∷ ts) rest (ne, h) =
    let later = b'\n' ∷ b'}' ∷ b'\n' ∷ rest in
    rw
      (
        append-nil,
        append_assoc,
        append_assoc,
        Skips.get_token-indent 1 (join (t ∷ ts) ++ b';' ∷ later),
      )
      (Skips.Skips-tokens (codes ";") t ts later (tokens-ne-end (t ∷ ts) h))

-- What the body of the loop makes of a location.
pub read_token-listed :
    (b : ConfigBlock) (rest : Bytes) (blocks : List ConfigBlock)
    → IsToken b.handler_type
    → is_listed b.handler_type ≡ true
    → AllSimple b.content
    → (k : ℕ) × ((f : ℕ)
        → k ≤ f
        → read_token f true b.prefix (b' ' ∷ (b.handler_type ++ braced b.content rest)) blocks
          ≡ some (codes "}", b'\n' ∷ rest, blocks ++ header b.prefix b.handler_type ∷ []))
read_token-listed b rest blocks ht listed hc =
    let s = listed_body b.handler_type b.content rest ht hc in
    let after = b'{' ∷ b'\n' ∷ (config_to_string 1 b.content ++ b'}' ∷ b'\n' ∷ rest) in
    (
      suc s.rounds,
      λ f h.
          rw
            (
              Skips.get_token-space (b.handler_type ++ b' ' ∷ after),
              Skips.get_token-IsToken b.handler_type after b' ' ht (unfold ends_token in refl),
              listed,
              skip_to-Skips s (unfold equal in refl) f h,
            )
            refl,
    )

pub read_token-static :
    (b : ConfigBlock) (ts : List Bytes) (rest : Bytes) (blocks : List ConfigBlock)
    → IsToken b.handler_type
    → is_listed b.handler_type ≡ false
    → AreTokens ts
    → (k : ℕ) × ((f : ℕ)
        → k ≤ f
        → read_token f true b.prefix
            (b' ' ∷ (b.handler_type ++ braced (cons (simple ts) nil) rest))
            blocks
          ≡ some (
            codes ";",
            b'\n' ∷ b'}' ∷ b'\n' ∷ rest,
            blocks ++ header b.prefix b.handler_type ∷ [],
          ))
unfolding equal
read_token-static b ts rest blocks ht listed hc =
    let s = static_body ts rest hc in
    let body = config_to_string 1 (cons (simple ts) nil) ++ b'}' ∷ b'\n' ∷ rest in
    (
      suc s.rounds,
      λ f h.
          rw
            (
              Skips.get_token-space (b.handler_type ++ b' ' ∷ b'{' ∷ b'\n' ∷ body),
              Skips.get_token-IsToken b.handler_type (b'{' ∷ b'\n' ∷ body) b' ' ht
                  (unfold ends_token in refl),
              listed,
              Skips.get_token-space (b'{' ∷ b'\n' ∷ body),
              Skips.get_token-open (b'\n' ∷ body),
              Skips.get_token-newline body,
              skip_to-Skips s refl f h,
            )
            refl,
    )
