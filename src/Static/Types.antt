-- ===== src/Static/Types.antt =====
-- `StaticFileHandler::configParser`: the type of a file, by its name in the URI.
use cs130capstoneproject.Base.{ℕ, Bool, not, ◌&&◌, ◌||◌, ◌==◌, within, if◌then◌else◌}
use cs130capstoneproject.Base.Bytes.{Bytes, codes}
use cs130capstoneproject.Base.Regex.{
  Regex, one, seq, alt, star, plus, literal, regex_match, regex_search,
}
use cs130capstoneproject.Base.Int.{ℤ, pos, negsuc}

-- [a-zA-Z]+, and a byte that is no end of a line
abbrev pub is_letter : ℕ → Bool
is_letter c = within b'a' b'z' c || within b'A' b'Z' c

abbrev pub letters : Regex
letters = plus (one is_letter)

abbrev pub any_byte : Regex
any_byte = one (λ c. not (c == b'\n') && not (c == b'\r'))

-- The patterns, in the order in which they are declared.
unfoldable pub dir : Regex
unfolding literal
dir = seq (star any_byte) (literal (codes "/"))

unfoldable pub txt_html : Regex
unfolding literal
txt_html =
    seq (literal (codes "/")) (
      seq letters
        (seq (literal (codes ".")) (alt (literal (codes "txt")) (literal (codes "html")))))

unfoldable pub jpg : Regex
unfolding literal
jpg = seq (literal (codes "/")) (seq letters (literal (codes ".jpg")))

unfoldable pub png : Regex
unfolding literal
png = seq (literal (codes "/")) (seq letters (literal (codes ".png")))

unfoldable pub favicon : Regex
unfolding literal
favicon = seq (literal (codes "/")) (seq letters (literal (codes ".ico")))

unfoldable pub file : Regex
unfolding literal
file = seq (literal (codes "/")) letters

-- -1 is a directory, 1 a text, 2 and 3 images, 4 any other file, and 0 the rest.
unfoldable pub config_parser : Bytes → ℤ
config_parser uri =
    if regex_match dir uri
    then negsuc 0
    else if regex_search favicon uri
    then pos 0
    else if regex_search txt_html uri
    then pos 1
    else if regex_search png uri
    then pos 2
    else if regex_search jpg uri
    then pos 3
    else if regex_search file uri
    then pos 4
    else pos 0
