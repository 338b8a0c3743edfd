-- ===== src/Config/RoundTrip/Printable.antt =====
-- The configurations that the format can express, and the blocks that `Parse` collects of them.
use cs130capstoneproject.Base.{◌≢◌, List, [], ◌∷◌, ◌++◌, All}
use cs130capstoneproject.Base.Bytes.{Bytes}
use cs130capstoneproject.Config.Syntax.{Statement, simple, block, Config, nil, cons}
use cs130capstoneproject.Config.Lexing.{IsToken}

abbrev pub AreTokens : List Bytes → Type 0
AreTokens ts = (ts ≢ []) × All IsToken ts

-- Every statement has a token, and every token can be read back.
mutual
  pub data IsPrintable : Config → Type 0 where
    no_more : IsPrintable nil
    more : {s : Statement} {c : Config} → PrintsBack s → IsPrintable c → IsPrintable (cons s c)

  pub data PrintsBack : Statement → Type 0 where
    is_simple : {ts : List Bytes} → AreTokens ts → PrintsBack (simple ts)
    is_block :
        {ts : List Bytes} {c : Config} → AreTokens ts → IsPrintable c → PrintsBack (block ts c)

-- The child blocks, each behind those inside it.
unfoldable mutual
  pub blocks_of : Config → List Config
  blocks_of nil = []
  blocks_of (cons s c) = blocks_in s ++ blocks_of c

  pub blocks_in : Statement → List Config
  blocks_in (simple ts) = []
  blocks_in (block ts c) = blocks_of c ++ c ∷ []
