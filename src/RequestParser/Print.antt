-- ===== src/RequestParser/Print.antt =====
-- HTTP requests as text, independent of the parser: what a client sends.
use cs130capstoneproject.Base.{
  ℕ, ◌≡◌, ◌≢◌, true, false, Option, none, some, [], ◌∷◌, ◌++◌, ◌==◌, length, All,
}
use cs130capstoneproject.Base.Bytes.{Bytes, codes, is_digit}
use cs130capstoneproject.RequestParser.Numbers.{stoull}
use cs130capstoneproject.RequestParser.State.{
  Headers, get_header_value, is_control_char, is_separator,
}

pub record Message : Type 0 where
  pub method : Bytes
  pub uri : Bytes
  pub major : Bytes
  pub minor : Bytes
  pub headers : Headers
  pub content : Bytes

-- The text of the headers, in front of `rest`.
abbrev pub print_headers : Headers → Bytes → Bytes
print_headers [] rest = rest
print_headers ((n, v) ∷ hs) rest =
    n ++ (b':' ∷ b' ' ∷ (v ++ (b'\r' ∷ b'\n' ∷ print_headers hs rest)))

-- The text of the message, in front of `rest`.
abbrev pub print : Message → Bytes → Bytes
print m rest =
    m.method
    ++ (b' '
        ∷ (m.uri
            ++ (b' '
                ∷ b'H'
                ∷ b'T'
                ∷ b'T'
                ∷ b'P'
                ∷ b'/'
                ∷ (m.major
                    ++ (b'.'
                        ∷ (m.minor
                            ++ (b'\r'
                                ∷ b'\n'
                                ∷ print_headers m.headers
                                    (b'\r' ∷ b'\n' ∷ (m.content ++ rest)))))))))

abbrev pub IsToken : Bytes → Type 0
IsToken s = (s ≢ []) × All (λ c. is_separator c ≡ false) s

abbrev pub IsNumber : Bytes → Type 0
IsNumber s = (s ≢ []) × All (λ c. is_digit c ≡ true) s

abbrev pub IsUri : Bytes → Type 0
IsUri s = (s ≢ []) × All (λ c. ((c == b' ') ≡ false) × (is_control_char c ≡ false)) s

abbrev pub IsHeader : Bytes × Bytes → Type 0
IsHeader (n, v) = IsToken n × All (λ c. is_control_char c ≡ false) v

-- The length that the headers announce: 0 where there is no number.
abbrev pub length_of : Option ℕ → ℕ
length_of none = 0
length_of (some n) = n

abbrev pub content_length : Headers → ℕ
content_length hs = length_of (stoull (get_header_value hs (codes "Content-Length")))

pub record IsWellFormed (m : Message) : Type 0 where
  pub method : IsToken m.method
  pub uri : IsUri m.uri
  pub major : IsNumber m.major
  pub minor : IsNumber m.minor
  pub headers : All IsHeader m.headers
  pub content : length m.content ≡ content_length m.headers
