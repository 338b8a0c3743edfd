-- ===== src/Server/Makes.antt =====
-- The configurations of which the constructor of `server` makes its handlers.
use cs130capstoneproject.Base.{◌≡◌, ◌≢◌, ◌⊎◌, [], ◌∷◌, ◌++◌}
use cs130capstoneproject.Base.Bytes.{Bytes, codes}
use cs130capstoneproject.Base.Map.{Map}
use cs130capstoneproject.Config.Syntax.{Config, config_to_string}
use cs130capstoneproject.Port.Blocks.{ConfigBlock}

-- The types of handlers that are made of any block.
abbrev IsNamed : Bytes → Type 0
IsNamed t =
    (t ≡ codes "EchoHandler")
    ⊎ (t ≡ codes "StatusHandler")
    ⊎ (t ≡ codes "ErrorHandler")
    ⊎ (t ≡ codes "HealthHandler")
    ⊎ (t ≡ codes "ProxyHandler")
    ⊎ (t ≡ codes "CacheHandler")

-- A block of which a handler is made: of one of these types, or of static files, with a prefix that is
-- not empty, and a slash in the text of its block.
pub data IsMakeable (b : ConfigBlock) : Type 0 where
  named : IsNamed b.handler_type → IsMakeable b
  static :
      b.handler_type ≡ codes "StaticHandler"
      → b.prefix ≢ []
      → (q r : Bytes) → config_to_string 0 b.content ≡ q ++ b'/' ∷ r
      → IsMakeable b
