-- ===== src/RequestParser/RoundTrip/Bytewise.antt =====
-- `NextCharHandler` in the middle of a run of bytes of one kind.
use cs130capstoneproject.Base.{
  ℕ, ◌≡◌, refl, true, false, some, [], ◌∷◌, ◌++◌, append_assoc, arith, ◌==◌,
}
use cs130capstoneproject.Base.Bytes.{Bytes, is_digit}
use cs130capstoneproject.RequestParser.Path.{infer_path}
use cs130capstoneproject.RequestParser.State.{
  undefined, State, method, uri, version_h, version_major_start, version_major, version_minor_start,
  version_minor, header_start, header_name, header_value, Headers, Parser, is_control_char,
  is_separator, separator-false,
}
use cs130capstoneproject.RequestParser.Step.{push_name, push_value, step_in, next_char_handler}

-- The parser in the middle of each run of bytes.
module _ (p : Parser) where
  abbrev pub in_method : Bytes → Parser
  in_method m = record p { state = method; method = m; raw_request = p.raw_request ++ m }

  abbrev pub in_uri : Bytes → Parser
  in_uri m = record p { state = uri; uri = m; raw_request = p.raw_request ++ m }

  abbrev pub in_version : State → Bytes → Bytes → Parser
  in_version s v m = record p { state = s; version = v ++ m; raw_request = p.raw_request ++ m }

  abbrev pub in_name : Headers → Bytes → Parser
  in_name hs m = record p {
    state = header_name;
    headers = hs ++ (m, []) ∷ [];
    raw_request = p.raw_request ++ m;
  }

  abbrev pub in_value : Headers → Bytes → Bytes → Parser
  in_value hs n m = record p {
    state = header_value;
    headers = hs ++ (n, m) ∷ [];
    raw_request = p.raw_request ++ m;
  }

  pub method-step :
      (m : Bytes) (c : ℕ)
      → is_separator c ≡ false
      → next_char_handler (in_method m) c ≡ some (undefined, in_method (m ++ c ∷ []))
  unfolding next_char_handler step_in
  method-step m c h = rw (h, (separator-false c h).0, append_assoc)

  pub uri-step :
      (m : Bytes) (c : ℕ)
      → ((c == b' ') ≡ false) × (is_control_char c ≡ false)
      → next_char_handler (in_uri m) c ≡ some (undefined, in_uri (m ++ c ∷ []))
  unfolding next_char_handler step_in
  uri-step m c (h, k) = rw (h, k, append_assoc)

  pub major-step :
      (v m : Bytes) (c : ℕ)
      → is_digit c ≡ true
      → next_char_handler (in_version version_major v m) c
        ≡ some (undefined, in_version version_major v (m ++ c ∷ []))
  unfolding next_char_handler step_in is_digit
  major-step v m c h =
      ground (arith, append_assoc v m (c ∷ []), append_assoc p.raw_request m (c ∷ []))

  pub minor-step :
      (v m : Bytes) (c : ℕ)
      → is_digit c ≡ true
      → next_char_handler (in_version version_minor v m) c
        ≡ some (undefined, in_version version_minor v (m ++ c ∷ []))
  unfolding next_char_handler step_in is_digit
  minor-step v m c h =
      ground (arith, append_assoc v m (c ∷ []), append_assoc p.raw_request m (c ∷ []))

push_name-concat :
    (c : ℕ) (hs : Headers) (n v : Bytes)
    → push_name c (hs ++ (n, v) ∷ []) ≡ some (hs ++ (n ++ c ∷ [], v) ∷ [])
unfolding push_name
push_name-concat c [] n v = refl
push_name-concat c (h ∷ []) n v = refl
push_name-concat c (h ∷ g ∷ hs) n v = rw (push_name-concat c (g ∷ hs) n v)

push_value-concat :
    (c : ℕ) (hs : Headers) (n v : Bytes)
    → push_value c (hs ++ (n, v) ∷ []) ≡ some (hs ++ (n, v ++ c ∷ []) ∷ [])
unfolding push_value
push_value-concat c [] n v = refl
push_value-concat c (h ∷ []) n v = refl
push_value-concat c (h ∷ g ∷ hs) n v = rw (push_value-concat c (g ∷ hs) n v)

module _ (p : Parser) (hs : Headers) where
  pub header_start-step :
      (c : ℕ)
      → is_separator c ≡ false
      → next_char_handler (record p { state = header_start; headers = hs }) c
        ≡ some (undefined, in_name p hs (c ∷ []))
  unfolding next_char_handler step_in
  header_start-step c h =
      let (space, tab, cr, _) = separator-false c h in ground (arith, push_name-concat c hs [] [])

  pub name-step :
      (m : Bytes) (c : ℕ)
      → is_separator c ≡ false
      → next_char_handler (in_name p hs m) c ≡ some (undefined, in_name p hs (m ++ c ∷ []))
  unfolding next_char_handler step_in
  name-step m c h =
      let (_, _, _, colon) = separator-false c h in
      rw (colon, h, push_name-concat c hs m [], append_assoc)

  pub value-step :
      (n m : Bytes) (c : ℕ)
      → is_control_char c ≡ false
      → next_char_handler (in_value p hs n m) c ≡ some (undefined, in_value p hs n (m ++ c ∷ []))
  unfolding next_char_handler step_in is_control_char
  value-step n m c h =
      ground (arith, push_value-concat c hs n m, append_assoc p.raw_request m (c ∷ []))

-- The first byte of a run, and the byte that ends a URI.
module _ (p : Parser) where
  pub uri-first :
      (c : ℕ)
      → ((c == b' ') ≡ false) × (is_control_char c ≡ false)
      → next_char_handler (record p { state = uri; uri = [] }) c
        ≡ some (undefined, in_uri p (c ∷ []))
  unfolding next_char_handler step_in
  uri-first c (h, k) = rw (h, k)

  pub uri_end-step :
      (s path : Bytes)
      → infer_path [] s ≡ some path
      → next_char_handler (record p { state = uri; path = []; uri = s }) b' '
        ≡ some (
          undefined,
          record p {
            state = version_h;
            path = path;
            uri = s;
            raw_request = p.raw_request ++ b' ' ∷ [];
          },
        )
  unfolding next_char_handler step_in
  uri_end-step s path e = rw e

  pub major-first :
      (v : Bytes) (c : ℕ)
      → is_digit c ≡ true
      → next_char_handler (record p { state = version_major_start; version = v }) c
        ≡ some (undefined, in_version p version_major v (c ∷ []))
  unfolding next_char_handler step_in
  major-first v c h = rw h

  pub minor-first :
      (v : Bytes) (c : ℕ)
      → is_digit c ≡ true
      → next_char_handler (record p { state = version_minor_start; version = v }) c
        ≡ some (undefined, in_version p version_minor v (c ∷ []))
  unfolding next_char_handler step_in
  minor-first v c h = rw h

  pub value-first :
      (hs : Headers) (n : Bytes) (c : ℕ)
      → is_control_char c ≡ false
      → next_char_handler (record p { state = header_value; headers = hs ++ (n, []) ∷ [] }) c
        ≡ some (undefined, in_value p hs n (c ∷ []))
  unfolding next_char_handler step_in is_control_char
  value-first hs n c h = ground (arith, push_value-concat c hs n [])
