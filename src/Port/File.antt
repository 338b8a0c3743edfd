-- ===== src/Port/File.antt =====
-- A configuration file with a port and locations: what `port::checkPortNum` and `setConfigBlocks` read.
use cs130capstoneproject.Base.{
  ℕ, ◌≤◌, ◌<◌, ◌≡◌, ◌≢◌, refl, false, List, [], ◌∷◌, ◌++◌, map, append_assoc, arith, All, inl,
}
use cs130capstoneproject.Base.Bytes.{Bytes, codes, equal, is_digit}
use cs130capstoneproject.RequestParser.Numbers.{AreDigits}
use cs130capstoneproject.Http.Decimal.{to_string, to_string-AreDigits, to_string-ne-nil}
use cs130capstoneproject.Config.Syntax.{
  Config, cons, simple, join, indent, config_to_string, statement_to_string,
}
use cs130capstoneproject.Config.Lexer.{get_token, ends_token}
use cs130capstoneproject.Config.Lexing.{IsToken}
use cs130capstoneproject.Config.RoundTrip.Printable.{
  IsPrintable, more, is_simple, blocks_of, blocks_in,
}
use cs130capstoneproject.Config.RoundTrip.Whole.{parse-config_to_string}
use cs130capstoneproject.Port.Skips
use cs130capstoneproject.Port.Number.{set_port, check_port_num}
use cs130capstoneproject.Port.Search.{check_port_num-reads}
use cs130capstoneproject.Port.Blocks.{ConfigBlock, set_config_blocks, set_blocks}
use cs130capstoneproject.Port.Rounds.{Reads, Reads-token}
use cs130capstoneproject.Port.RoundTrip.{IsSite, config_of}
use cs130capstoneproject.Port.Sites.{
  Reads-sites, bare, config_of-IsPrintable, blocks_of-config_of, assign_contents-bare,
}

-- A port, and a location for each block.
abbrev pub file_of : ℕ → List ConfigBlock → Config
file_of n bs = cons (simple (codes "port" ∷ to_string n ∷ [])) (config_of bs)

abbrev pub file_text : ℕ → List ConfigBlock → Bytes
file_text n bs = config_to_string 0 (file_of n bs)

file_of-text :
    (n : ℕ) (bs : List ConfigBlock)
    → file_text n bs
      ≡ codes "port" ++ b' ' ∷ (to_string n ++ b';' ∷ b'\n' ∷ config_to_string 0 (config_of bs))
unfolding config_to_string statement_to_string join indent
file_of-text n bs = simp append_assoc

digits-end : (s : Bytes) → AreDigits s → All (λ c. ends_token c ≡ false) s
unfolding ends_token is_digit
digits-end [] h = tt
digits-end (c ∷ s) (h, hs) = (ground arith, digits-end s hs)

digits-IsToken : (s : Bytes) → s ≢ [] → AreDigits s → IsToken s
unfolding is_digit
digits-IsToken [] ne h = absurd (ne refl)
digits-IsToken (c ∷ s) ne (h, hs) = inl (ground arith, digits-end s hs)

to_string-IsToken : (n : ℕ) → IsToken (to_string n)
to_string-IsToken n = digits-IsToken (to_string n) (to_string-ne-nil n) (to_string-AreDigits n)

port-IsToken : IsToken (codes "port")
unfolding ends_token
port-IsToken = inl (refl, (refl, (refl, (refl, tt))))

digits-ne-location : (s : Bytes) → AreDigits s → equal s (codes "location") ≡ false
unfolding equal is_digit
digits-ne-location [] h = refl
digits-ne-location (c ∷ s) (h, hs) = ground arith

Reads-file :
    (n : ℕ) (bs : List ConfigBlock)
    → All IsSite bs
    → Reads [] (get_token (file_text n bs)).0 (get_token (file_text n bs)).1 [] (map bare bs)
unfolding ends_token equal
Reads-file n bs h =
    let sites = config_to_string 0 (config_of bs) in
    let number = to_string n ++ b';' ∷ b'\n' ∷ sites in
    let out = map bare bs in
    rw (file_of-text n bs, Skips.get_token-IsToken (codes "port") number b' ' port-IsToken refl)
      (Reads-token [] (codes "port") (b' ' ∷ number) [] out (λ e. cc) refl
        (rw
          (
            Skips.get_token-space number,
            Skips.get_token-IsToken (to_string n) (b'\n' ∷ sites) b';' (to_string-IsToken n) refl,
          )
          (Reads-token (codes "port") (to_string n) (b';' ∷ b'\n' ∷ sites) [] out
            (to_string-ne-nil n) refl
            (rw (Skips.get_token-end (b'\n' ∷ sites)) (
              Reads-token (to_string n) (codes ";") (b'\n' ∷ sites) [] out (λ e. cc)
                (digits-ne-location (to_string n) (to_string-AreDigits n))
                (rw (Skips.get_token-newline sites) (Reads-sites bs (codes ";") [] refl h)))))))

file_of-IsPrintable : (n : ℕ) (bs : List ConfigBlock) → All IsSite bs → IsPrintable (file_of n bs)
file_of-IsPrintable n bs h =
    more (is_simple ((λ e. cc), (port-IsToken, (to_string-IsToken n, tt))))
      (config_of-IsPrintable bs h)

blocks_of-file_of :
    (n : ℕ) (bs : List ConfigBlock) → blocks_of (file_of n bs) ≡ blocks_of (config_of bs)
unfolding blocks_of blocks_in
blocks_of-file_of n bs = refl

-- With enough rounds `setConfigBlocks` reads the blocks back, whatever is in the caller's configuration.
pub set_config_blocks-file_of :
    (config : Config) (n : ℕ) (bs : List ConfigBlock)
    → All IsSite bs
    → (k : ℕ) × ((f : ℕ) → k ≤ f → set_config_blocks f config (file_text n bs) ≡ set_blocks bs)
unfolding set_config_blocks
set_config_blocks-file_of config n bs h =
    let r = Reads-file n bs h in
    (
      r.rounds,
      λ f enough.
          rw
            (
              r.reads f enough,
              parse-config_to_string config (file_of n bs) [] 0 (file_of-IsPrintable n bs h),
              blocks_of-file_of n bs,
              blocks_of-config_of bs h,
              assign_contents-bare bs,
            )
            refl,
    )

pub check_port_num-file_of :
    (n : ℕ) (bs : List ConfigBlock)
    → 0 < n
    → n < 65536
    → check_port_num (file_text n bs) ≡ set_port n
unfolding ends_token
check_port_num-file_of n bs pos small =
    rw (file_of-text n bs)
      (check_port_num-reads n b';' (b'\n' ∷ config_to_string 0 (config_of bs)) pos small refl)
