-- ===== src/RequestParser/RoundTrip/Lines.antt =====
-- The request line and the header lines.
use cs130capstoneproject.Base.{
  ℕ, ◌≡◌, refl, false, some, [], ◌∷◌, ◌++◌, append-nil, append_assoc, All,
}
use cs130capstoneproject.Base.Bytes.{Bytes, codes}
use cs130capstoneproject.RequestParser.Request.{Request}
use cs130capstoneproject.RequestParser.Path.{infer_path}
use cs130capstoneproject.RequestParser.State.{
  undefined, uri, version_h, version_major_start, version_major, version_minor_start, version_minor,
  header_start, header_value, Headers, Parser, fresh, is_control_char, is_separator,
}
use cs130capstoneproject.RequestParser.Step.{step_in, next_char_handler}
use cs130capstoneproject.RequestParser.Print.{print_headers, IsToken, IsNumber, IsUri, IsHeader}
use cs130capstoneproject.RequestParser.RoundTrip.Runs.{
  Reaches, Reaches-stop, Reaches-trans, Reaches-byte, Reaches-All, Reaches-forget,
}
use cs130capstoneproject.RequestParser.RoundTrip.Bytewise.{
  in_method, in_uri, in_version, in_name, in_value, method-step, uri-step, major-step, minor-step,
  header_start-step, name-step, value-step, uri-first, uri_end-step, major-first, minor-first,
  value-first,
}

start-step :
    (r c : ℕ)
    → is_separator c ≡ false
    → next_char_handler (fresh r) c ≡ some (undefined, in_method (fresh r) (c ∷ []))
unfolding next_char_handler step_in
start-step r c h = rw h

module _ (req : Request) where
  pub Reaches-method :
      (r : ℕ) (s rest : Bytes)
      → IsToken s
      → Reaches req (fresh r) (s ++ b' ' ∷ rest) (record (fresh r) { state = uri; method = s }) rest
  unfolding next_char_handler step_in
  Reaches-method r [] rest h = absurd (h.0 refl)
  Reaches-method r (c ∷ s) rest (_, (h, hs)) = Reaches-byte req (start-step r c h) (
      Reaches-trans req
        (Reaches-All req _ (in_method (fresh r)) (method-step (fresh r)) s (c ∷ []) (b' ' ∷ rest)
          hs)
        (λ raw. Reaches-byte req refl (Reaches-stop req _ _ rest)))

  pub Reaches-uri :
      (p : Parser) (s path rest : Bytes)
      → IsUri s
      → infer_path [] s ≡ some path
      → Reaches req
          (record p { state = uri; path = []; uri = [] })
          (s ++ b' ' ∷ rest)
          (record p { state = version_h; path = path; uri = s })
          rest
  Reaches-uri p [] path rest h e = absurd (h.0 refl)
  Reaches-uri p (c ∷ s) path rest (_, (h, hs)) e =
      let q = record p { path = [] } in
      Reaches-byte req (uri-first q c h) (
        Reaches-trans req (Reaches-All req _ (in_uri q) (uri-step q) s (c ∷ []) (b' ' ∷ rest) hs)
          (λ raw.
            Reaches-byte req (uri_end-step (record q { raw_request = raw }) (c ∷ s) path e)
              (Reaches-stop req _ _ rest)))

  pub Reaches-protocol :
      (p : Parser) (rest : Bytes)
      → Reaches req
          (record p { state = version_h; version = [] })
          (b'H' ∷ b'T' ∷ b'T' ∷ b'P' ∷ b'/' ∷ rest)
          (record p { state = version_major_start; version = codes "HTTP/" })
          rest
  unfolding next_char_handler step_in
  Reaches-protocol p rest = Reaches-byte req refl (
      Reaches-byte req refl (
        Reaches-byte req refl
          (Reaches-byte req refl (Reaches-byte req refl (Reaches-stop req _ _ rest)))))

  pub Reaches-major :
      (p : Parser) (v s rest : Bytes)
      → IsNumber s
      → Reaches req
          (record p { state = version_major_start; version = v })
          (s ++ b'.' ∷ rest)
          (record p { state = version_minor_start; version = (v ++ s) ++ b'.' ∷ [] })
          rest
  unfolding next_char_handler step_in
  Reaches-major p v [] rest h = absurd (h.0 refl)
  Reaches-major p v (c ∷ s) rest (_, (h, hs)) = Reaches-byte req (major-first p v c h) (
      Reaches-trans req
        (Reaches-All req _ (in_version p version_major v) (major-step p v) s (c ∷ []) (b'.' ∷ rest)
          hs)
        (λ raw. Reaches-byte req refl (Reaches-stop req _ _ rest)))

  pub Reaches-minor :
      (p : Parser) (v s rest : Bytes)
      → IsNumber s
      → Reaches req
          (record p { state = version_minor_start; version = v })
          (s ++ b'\r' ∷ b'\n' ∷ rest)
          (record p { state = header_start; version = v ++ s })
          rest
  unfolding next_char_handler step_in
  Reaches-minor p v [] rest h = absurd (h.0 refl)
  Reaches-minor p v (c ∷ s) rest (_, (h, hs)) = Reaches-byte req (minor-first p v c h) (
      Reaches-trans req
        (Reaches-All req _ (in_version p version_minor v) (minor-step p v) s (c ∷ [])
          (b'\r' ∷ b'\n' ∷ rest) hs)
        (λ raw. Reaches-byte req refl (Reaches-byte req refl (Reaches-stop req _ _ rest))))

  Reaches-value :
      (p : Parser) (hs : Headers) (n v rest : Bytes)
      → All (λ c. is_control_char c ≡ false) v
      → Reaches req
          (record p { state = header_value; headers = hs ++ (n, []) ∷ [] })
          (v ++ b'\r' ∷ b'\n' ∷ rest)
          (record p { state = header_start; headers = hs ++ (n, v) ∷ [] })
          rest
  unfolding next_char_handler step_in
  Reaches-value p hs n [] rest h =
      Reaches-byte req refl (Reaches-byte req refl (Reaches-stop req _ _ rest))
  Reaches-value p hs n (c ∷ v) rest (h, hv) = Reaches-byte req (value-first p hs n c h) (
      Reaches-trans req
        (Reaches-All req _ (in_value p hs n) (value-step p hs n) v (c ∷ []) (b'\r' ∷ b'\n' ∷ rest)
          hv)
        (λ raw. Reaches-byte req refl (Reaches-byte req refl (Reaches-stop req _ _ rest))))

  Reaches-header :
      (p : Parser) (hs : Headers) (n v rest : Bytes)
      → IsHeader (n, v)
      → Reaches req
          (record p { state = header_start; headers = hs })
          (n ++ (b':' ∷ b' ' ∷ (v ++ (b'\r' ∷ b'\n' ∷ rest))))
          (record p { state = header_start; headers = hs ++ (n, v) ∷ [] })
          rest
  unfolding next_char_handler step_in
  Reaches-header p hs [] v rest h = absurd (h.0.0 refl)
  Reaches-header p hs (c ∷ n) v rest ((_, (h, hn)), hv) =
      Reaches-byte req (header_start-step p hs c h) (
        Reaches-trans req (Reaches-All req _ (in_name p hs) (name-step p hs) n (c ∷ []) _ hn)
          (λ raw. Reaches-byte req refl (
            Reaches-byte req refl (
              Reaches-forget req _ _ (
                Reaches-value (record p { raw_request = (raw ++ b':' ∷ []) ++ b' ' ∷ [] }) hs
                  (c ∷ n) v rest hv)))))

  pub Reaches-headers :
      (more : Headers) (p : Parser) (hs : Headers) (rest : Bytes)
      → All IsHeader more
      → Reaches req
          (record p { state = header_start; headers = hs })
          (print_headers more rest)
          (record p { state = header_start; headers = hs ++ more })
          rest
  Reaches-headers [] p hs rest h = rw append-nil (Reaches-stop req _ _ rest)
  Reaches-headers ((n, v) ∷ more) p hs rest (h, t) =
      Reaches-trans req (Reaches-header p hs n v (print_headers more rest) h) (λ raw.
        Reaches-forget req _ raw (
          rw append_assoc at
            (Reaches-headers more (record p { raw_request = raw }) (hs ++ (n, v) ∷ []) rest t)))
