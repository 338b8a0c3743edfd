-- ===== src/Config/Syntax.antt =====
-- `NginxConfig` and `NginxConfigStatement`, and their `ToString`.
use cs130capstoneproject.Base.{ℕ, zero, suc, List, [], ◌∷◌, ◌++◌}
use cs130capstoneproject.Base.Bytes.{Bytes}

-- A statement has tokens, and a child block unless the pointer is null.
mutual
  pub data Statement : Type 0 where
    simple : List Bytes → Statement
    block : List Bytes → Config → Statement

  pub data Config : Type 0 where
    nil : Config
    cons : Statement → Config → Config

-- The tokens with spaces between them.
unfoldable pub join : List Bytes → Bytes
join [] = []
join (t ∷ []) = t
join (t ∷ u ∷ ts) = t ++ b' ' ∷ join (u ∷ ts)

unfoldable pub indent : ℕ → Bytes
indent zero = []
indent (suc d) = b' ' ∷ b' ' ∷ indent d

unfoldable mutual
  pub config_to_string : ℕ → Config → Bytes
  config_to_string d nil = []
  config_to_string d (cons s c) = statement_to_string d s ++ config_to_string d c

  pub statement_to_string : ℕ → Statement → Bytes
  statement_to_string d (simple ts) = indent d ++ (join ts ++ (b';' ∷ b'\n' ∷ []))
  statement_to_string d (block ts c) =
      indent d
      ++ (join ts
          ++ (b' '
              ∷ b'{'
              ∷ b'\n'
              ∷ (config_to_string (suc d) c ++ (indent d ++ (b'}' ∷ b'\n' ∷ [])))))
