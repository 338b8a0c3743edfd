-- ===== src/Server/Start.antt =====
-- src/main.cc: from the text of the configuration file to the handlers of the server.
use cs130capstoneproject.Base.{ℕ, ◌+◌, ◌<◌, arith, ◌≡◌, refl, Option, none, some, List, [], All}
use cs130capstoneproject.Base.Bytes.{Bytes}
use cs130capstoneproject.Config.Syntax.{nil}
use cs130capstoneproject.Port.Number.{
  PortCheck, set_port, refused, out_of_range, out_of_fuel, check_port_num,
}
use cs130capstoneproject.Port.Blocks.{
  ConfigBlock, BlocksResult, set_blocks, overrun, endless, set_config_blocks,
}
use cs130capstoneproject.Port.RoundTrip.{IsSite}
use cs130capstoneproject.Port.File.{file_text, set_config_blocks-file_of, check_port_num-file_of}
use cs130capstoneproject.Server.Handlers.{Registry, construct}

-- How `main` goes on: it accepts connections on a port with these handlers, returns, meets an
-- exception or undefined behaviour, or reads the file forever.
pub data Started : Type 0 where
  started : ℕ → Registry → Started
  invalid_port crashed reading : Started

abbrev pub no_handlers : Registry
no_handlers = record { handlers = []; roots = [] }

module _ (trim_quotes : Bytes → Bytes) where
  abbrev pub constructed : ℕ → Option Registry → Started
  constructed port none = crashed
  constructed port (some r) = started port r

  abbrev pub with_blocks : ℕ → BlocksResult → Started
  with_blocks port (set_blocks bs) = constructed port (construct trim_quotes bs no_handlers)
  with_blocks port overrun = crashed
  with_blocks port endless = reading

  abbrev pub with_port : ℕ → Bytes → PortCheck → Started
  with_port f text (set_port port) = with_blocks port (set_config_blocks f nil text)
  with_port f text refused = invalid_port
  with_port f text out_of_range = crashed
  with_port f text out_of_fuel = reading

  -- `main` on the text of the file; `f` bounds the rounds of each loop of `setConfigBlocks`.
  unfoldable pub start : ℕ → Bytes → Started
  start f text = with_port f text (check_port_num text)

  -- On the text of a configuration with a port from 1 to 65535 and any locations, as `ToString` prints
  -- it, `main` listens on that port, with the handlers that the constructor makes of the locations, if it
  -- ends: some number of rounds, and any greater one, is enough for the loops. A location has a prefix
  -- and a type of handler that are tokens; with a listed type it has statements that are no blocks, and
  -- with any other type it has one such statement.
  pub start-file_of :
      (port : ℕ) (bs : List ConfigBlock) (r : Registry)
      → 0 < port
      → port < 65536
      → All IsSite bs
      → construct trim_quotes bs no_handlers ≡ some r
      → (k : ℕ) × ((f : ℕ) → start (k + f) (file_text port bs) ≡ started port r)
  unfolding start
  start-file_of port bs r pos small sites built =
      let (k, reads) = set_config_blocks-file_of nil port bs sites in
      (
        k,
        λ f. rw (check_port_num-file_of port bs pos small, reads (k + f) (omega arith), built) refl,
      )
