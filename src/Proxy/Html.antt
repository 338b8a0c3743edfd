-- ===== src/Proxy/Html.antt =====
-- `ProxyHandler::parse_html_body`: the links of a page, led back through the server.
use cs130capstoneproject.Base.{
  ℕ, not, ◌&&◌, Option, none, some, [], ◌∷◌, ◌++◌, ◌==◌, length, take, ◌-◌, get_last?,
  if◌then◌else◌,
}
use cs130capstoneproject.Base.Bytes.{Bytes, codes, equal}

-- `edited_msg` and `curr_target` after a byte.
unfoldable pub edit : Bytes → Bytes × Bytes → ℕ → Bytes × Bytes
edit addr (edited, target) c =
    if not (c == b'"') && not (c == b'/')
    then (edited ++ c ∷ [], [])
    else if c == b'"'
    then (edited ++ c ∷ [], target ++ c ∷ [])
    else if equal (target ++ c ∷ []) (codes "\"/")
    then (edited ++ (addr ++ b'/' ∷ []), [])
    else (edited ++ c ∷ [], [])

-- The loop over the message.
unfoldable pub edit_all : Bytes → Bytes × Bytes → Bytes → Bytes × Bytes
edit_all addr state [] = state
edit_all addr state (c ∷ msg) = edit_all addr (edit addr state c) msg

abbrev pub without_slash : Bytes → Option ℕ → Option Bytes
without_slash serve_addr none = none
without_slash serve_addr (some c) =
    some (if c == b'/' then take (length serve_addr - 1) serve_addr else serve_addr)

-- The address without the slash at its end. `serve_addr[serve_addr.length() - 1]` is out of bounds on
-- an empty address.
unfoldable pub target_addr : Bytes → Option Bytes
target_addr serve_addr = without_slash serve_addr (get_last? serve_addr)

abbrev pub edited : Bytes → Option Bytes → Option Bytes
edited msg none = none
edited msg (some addr) = some (edit_all addr ([], []) msg).0

-- On the address that the handler serves; `none` is the access out of bounds.
unfoldable pub parse_html_body : Bytes → Bytes → Option Bytes
parse_html_body serve_addr msg = edited msg (target_addr serve_addr)
