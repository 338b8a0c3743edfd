-- ===== src/Port/Sites.antt =====
-- `port::setConfigBlocks` reads back the blocks of a configuration.
use cs130capstoneproject.Base.{
  ◌≡◌, ◌≢◌, refl, Bool, true, false, some, List, [], ◌∷◌, ◌++◌, map, append_assoc, append-nil, All,
  inl, inr,
}
use cs130capstoneproject.Base.Bytes.{Bytes, codes, equal}
use cs130capstoneproject.Config.Syntax.{Config, nil, cons, simple, block, config_to_string}
use cs130capstoneproject.Config.Lexer.{get_token, parse_token, token_from, ends_token}
use cs130capstoneproject.Config.Lexing.{IsToken}
use cs130capstoneproject.Config.RoundTrip.Printable.{
  IsPrintable, no_more, more, is_simple, is_block, blocks_of, blocks_in,
}
use cs130capstoneproject.Port.Skips
use cs130capstoneproject.Port.Skips.{AllSimple}
use cs130capstoneproject.Port.Endless.{location-IsToken}
use cs130capstoneproject.Port.Blocks.{ConfigBlock, header, is_listed, assign_contents}
use cs130capstoneproject.Port.Rounds.{Reads, Reads-end, Reads-round, Reads-token}
use cs130capstoneproject.Port.RoundTrip.{
  read_token-listed, read_token-static, HasBody, IsSite, config_of, config_of-text, braced,
}

pub IsToken-ne-nil : (t : Bytes) → IsToken t → t ≢ []
IsToken-ne-nil [] (inl h) e = h
IsToken-ne-nil [] (inr (inl (i, q, _))) e = absurd (cc q)
IsToken-ne-nil [] (inr (inr (i, q, _))) e = absurd (cc q)
IsToken-ne-nil (c ∷ t) h e = absurd (cc e)

-- A location, from its prefix on.
Reads-body :
    (prefix t : Bytes) (c : Config) (listed : Bool) (rest : Bytes) (blocks out : List ConfigBlock)
    → IsToken prefix
    → IsToken t
    → is_listed t ≡ listed
    → HasBody listed c
    → Reads (codes "}") (get_token rest).0 (get_token rest).1 (blocks ++ header prefix t ∷ []) out
    → Reads (codes "location") prefix (b' ' ∷ (t ++ braced c rest)) blocks out
unfolding equal
Reads-body prefix t c true rest blocks out hp ht l hc r =
    let b : ConfigBlock = record { prefix = prefix; handler_type = t; content = c } in
    let (k, goes) = read_token-listed b rest blocks ht l hc in
    Reads-round (codes "location") prefix (b' ' ∷ (t ++ braced c rest)) blocks (codes "}")
      (b'\n' ∷ rest) (blocks ++ header prefix t ∷ []) out k (IsToken-ne-nil prefix hp) goes
      (rw (Skips.get_token-newline rest) r)
Reads-body prefix t (cons (simple ts) nil) false rest blocks out hp ht l hc r =
    let c = cons (simple ts) nil in
    let b : ConfigBlock = record { prefix = prefix; handler_type = t; content = c } in
    let (k, goes) = read_token-static b ts rest blocks ht l hc in
    Reads-round (codes "location") prefix (b' ' ∷ (t ++ braced c rest)) blocks (codes ";")
      (b'\n' ∷ b'}' ∷ b'\n' ∷ rest) (blocks ++ header prefix t ∷ []) out k
      (IsToken-ne-nil prefix hp) goes
      (rw (Skips.get_token-newline (b'}' ∷ b'\n' ∷ rest), Skips.get_token-close (b'\n' ∷ rest))
        (Reads-token (codes ";") (codes "}") (b'\n' ∷ rest) (blocks ++ header prefix t ∷ []) out
          (λ e. cc) refl (rw (Skips.get_token-newline rest) r)))
Reads-body prefix t nil false rest blocks out hp ht l hc r = absurd hc
Reads-body prefix t (cons (simple ts) (cons x c)) false rest blocks out hp ht l hc r = absurd hc
Reads-body prefix t (cons (block ts d) c) false rest blocks out hp ht l hc r = absurd hc

Reads-site :
    (b : ConfigBlock) (rest last : Bytes) (blocks out : List ConfigBlock)
    → IsSite b
    → equal last (codes "location") ≡ false
    → Reads
        (codes "}")
        (get_token rest).0
        (get_token rest).1
        (blocks ++ header b.prefix b.handler_type ∷ [])
        out
    → let text =
        codes "location" ++ b' ' ∷ (b.prefix ++ b' ' ∷ (b.handler_type ++ braced b.content rest)) in
      Reads last (get_token text).0 (get_token text).1 blocks out
Reads-site b rest last blocks out (hp, ht, hc) other r =
    let behind = b.handler_type ++ braced b.content rest in
    rw
      (Skips.get_token-IsToken (codes "location") (b.prefix ++ b' ' ∷ behind) b' ' location-IsToken
        (unfold ends_token in refl))
      (Reads-token last (codes "location") (b' ' ∷ (b.prefix ++ b' ' ∷ behind)) blocks out (λ e. cc)
        other
        (rw
          (
            Skips.get_token-space (b.prefix ++ b' ' ∷ behind),
            Skips.get_token-IsToken b.prefix behind b' ' hp (unfold ends_token in refl),
          )
          (Reads-body b.prefix b.handler_type b.content (is_listed b.handler_type) rest blocks out
            hp ht refl hc r)))

abbrev pub bare : ConfigBlock → ConfigBlock
bare b = header b.prefix b.handler_type

pub Reads-sites :
    (bs : List ConfigBlock) (last : Bytes) (blocks : List ConfigBlock)
    → equal last (codes "location") ≡ false
    → All IsSite bs
    → let text = config_to_string 0 (config_of bs) in
      Reads last (get_token text).0 (get_token text).1 blocks (blocks ++ map bare bs)
Reads-sites [] last blocks other h =
    rw append-nil
      (unfold config_to_string get_token parse_token token_from in Reads-end last [] blocks)
Reads-sites (b ∷ bs) last blocks other (h, hs) = rw (config_of-text b bs) (
    Reads-site b (config_to_string 0 (config_of bs)) last blocks (blocks ++ map bare (b ∷ bs)) h
      other
      (rw append_assoc at
        (Reads-sites bs (codes "}") (blocks ++ bare b ∷ []) (unfold equal in refl) hs)))

HasBody-AllSimple : (listed : Bool) (c : Config) → HasBody listed c → AllSimple c
HasBody-AllSimple true c h = h
HasBody-AllSimple false (cons (simple ts) nil) h = (h, tt)
HasBody-AllSimple false nil h = absurd h
HasBody-AllSimple false (cons (simple ts) (cons x c)) h = absurd h
HasBody-AllSimple false (cons (block ts d) c) h = absurd h

AllSimple-IsPrintable : (c : Config) → AllSimple c → IsPrintable c
AllSimple-IsPrintable nil h = no_more
AllSimple-IsPrintable (cons (simple ts) c) (h, hs) = more (is_simple h) (AllSimple-IsPrintable c hs)
AllSimple-IsPrintable (cons (block ts d) c) h = absurd h

blocks_of-AllSimple : (c : Config) → AllSimple c → blocks_of c ≡ []
unfolding blocks_of blocks_in
blocks_of-AllSimple nil h = refl
blocks_of-AllSimple (cons (simple ts) c) (h, hs) = blocks_of-AllSimple c hs
blocks_of-AllSimple (cons (block ts d) c) h = absurd h

pub config_of-IsPrintable : (bs : List ConfigBlock) → All IsSite bs → IsPrintable (config_of bs)
config_of-IsPrintable [] h = no_more
config_of-IsPrintable (b ∷ bs) ((hp, ht, hc), hs) =
    more
      (is_block ((λ e. cc), (location-IsToken, (hp, (ht, tt))))
        (AllSimple-IsPrintable b.content
          (HasBody-AllSimple (is_listed b.handler_type) b.content hc)))
      (config_of-IsPrintable bs hs)

abbrev pub content_of : ConfigBlock → Config
content_of b = b.content

pub blocks_of-config_of :
    (bs : List ConfigBlock) → All IsSite bs → blocks_of (config_of bs) ≡ map content_of bs
unfolding blocks_of blocks_in
blocks_of-config_of [] h = refl
blocks_of-config_of (b ∷ bs) ((hp, ht, hc), hs) =
    rw
      (
        blocks_of-AllSimple b.content (HasBody-AllSimple (is_listed b.handler_type) b.content hc),
        blocks_of-config_of bs hs,
      )
      refl

pub assign_contents-bare :
    (bs : List ConfigBlock) → assign_contents (map bare bs) (map content_of bs) ≡ some bs
unfolding assign_contents
assign_contents-bare [] = refl
assign_contents-bare (b ∷ bs) = rw (assign_contents-bare bs) refl
