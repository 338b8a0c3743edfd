-- ===== src/Proxy/Links.antt =====
-- Which links `parse_html_body` changes, and how.
use cs130capstoneproject.Base.{
  ℕ, ◌≡◌, ◌≢◌, refl, ap, ◌∙◌, none, some, [], ◌∷◌, ◌++◌, ◌==◌, arith, append-nil, append_assoc,
  get_last?, Bool-cases, ◌⊎◌, inl, inr, false,
}
use cs130capstoneproject.Base.Bytes.{Bytes, codes, equal, equal_iff, find, starts_with}
use cs130capstoneproject.Proxy.Html.{edit, edit_all, target_addr, parse_html_body}

edit-front :
    (addr e t : Bytes) (c : ℕ)
    → edit addr (e, t) c ≡ (e ++ (edit addr ([], t) c).0, (edit addr ([], t) c).1)
unfolding edit
edit-front addr e t c = ground arith

edit_all-front :
    (addr e t s : Bytes)
    → edit_all addr (e, t) s ≡ (e ++ (edit_all addr ([], t) s).0, (edit_all addr ([], t) s).1)
unfolding edit_all
edit_all-front addr e t [] = rw (append-nil e) refl
edit_all-front addr e t (c ∷ s) =
    let (d, u) = edit addr ([], t) c in
    rw (edit-front addr e t c, edit_all-front addr (e ++ d) u s, edit_all-front addr d u s)
      (rw append_assoc refl)

edit_all-append :
    (addr : Bytes) (st : Bytes × Bytes) (s t : Bytes)
    → edit_all addr st (s ++ t) ≡ edit_all addr (edit_all addr st s) t
unfolding edit_all
edit_all-append addr st [] t = refl
edit_all-append addr st (c ∷ s) t = edit_all-append addr (edit addr st c) s t

-- Behind any byte but a quotation mark no link begins.
edit-target : (addr : Bytes) (st : Bytes × Bytes) (c : ℕ) → c ≢ b'"' → (edit addr st c).1 ≡ []
unfolding edit
edit-target addr st c h = ground arith

edit_all-target :
    (addr : Bytes) (st : Bytes × Bytes) (c : ℕ) (s : Bytes)
    → get_last? (c ∷ s) ≢ some b'"'
    → (edit_all addr st (c ∷ s)).1 ≡ []
unfolding edit_all
edit_all-target addr st c [] h = edit-target addr st c (λ e. h (ap some e))
edit_all-target addr st c (d ∷ s) h = edit_all-target addr (edit addr st c) d s h

edit_all-target_start :
    (addr s : Bytes) → get_last? s ≢ some b'"' → (edit_all addr ([], []) s).1 ≡ []
edit_all-target_start addr [] h = unfold edit_all in refl
edit_all-target_start addr (c ∷ s) h = edit_all-target addr ([], []) c s h

edit_all-mark :
    (addr e post : Bytes)
    → edit_all addr (e, []) (b'"' ∷ b'/' ∷ post)
      ≡ edit_all addr ((e ++ b'"' ∷ []) ++ (addr ++ b'/' ∷ []), []) post
unfolding edit_all edit equal
edit_all-mark addr e post = refl

-- The first link behind `pre`.
edit_all-link :
    (addr pre post : Bytes)
    → get_last? pre ≢ some b'"'
    → (edit_all addr ([], []) (pre ++ b'"' ∷ b'/' ∷ post)).0
      ≡ (edit_all addr ([], []) pre).0 ++ b'"' ∷ (addr ++ b'/' ∷ (edit_all addr ([], []) post).0)
edit_all-link addr pre post h =
    let (e, t) = edit_all addr ([], []) pre in
    rw (edit_all-append addr ([], []) pre (b'"' ∷ b'/' ∷ post), edit_all-target_start addr pre h)
      (rw
        (
          edit_all-mark addr e post,
          edit_all-front addr ((e ++ b'"' ∷ []) ++ (addr ++ b'/' ∷ [])) [] post,
        )
        (simp append_assoc))

-- In a page with a quotation mark and a slash, where no other quotation mark stands in front of the
-- two, the address without the slash at its end is put between them, and what stands before and behind
-- is edited as it would be alone.
pub parse_html_body-link :
    (serve_addr addr pre post : Bytes)
    → target_addr serve_addr ≡ some addr
    → get_last? pre ≢ some b'"'
    → (before : Bytes) × (after : Bytes) × (parse_html_body serve_addr pre ≡ some before)
      × (parse_html_body serve_addr post ≡ some after)
      × (parse_html_body serve_addr (pre ++ b'"' ∷ b'/' ∷ post)
          ≡ some (before ++ b'"' ∷ (addr ++ b'/' ∷ after)))
unfolding parse_html_body
parse_html_body-link serve addr pre post e h = (
  (edit_all addr ([], []) pre).0,
  (edit_all addr ([], []) post).0,
  rw e refl,
  rw e refl,
  rw (e, edit_all-link addr pre post h) refl,
)

-- No slash comes behind a single quotation mark.
abbrev Apart : Bytes → Bytes → Type 0
Apart t s = (t ≢ b'"' ∷ []) ⊎ (starts_with (codes "/") s ≡ false)

concat_two : (t : Bytes) (c a b : ℕ) → t ++ c ∷ [] ≡ a ∷ b ∷ [] → t ≡ a ∷ []
concat_two [] c a b e = cc
concat_two (x ∷ []) c a b e = ground arith
concat_two (x ∷ y ∷ []) c a b e = cc
concat_two (x ∷ y ∷ z ∷ t) c a b e = cc

edit_plain :
    (addr e t : Bytes) (c : ℕ) (s : Bytes)
    → Apart t (c ∷ s)
    → starts_with (codes "\"/") (c ∷ s) ≡ false
    → ((edit addr (e, t) c).0 ≡ e ++ c ∷ []) × Apart (edit addr (e, t) c).1 s
unfolding edit starts_with
edit_plain addr e t c s h k = elim (Bool-cases (c == b'"')) [
  | inl mark ↦ (ground arith, inr (ground arith))
  | inr other ↦ (
    ground (arith, equal_iff (t ++ c ∷ []) (codes "\"/"), concat_two t c b'"' b'/'),
    rw (edit-target addr (e, t) c (ground arith)) (inl (λ x. cc)),
  )
]

edit_all-plain :
    (addr e t s : Bytes)
    → Apart t s
    → find (codes "\"/") s ≡ none
    → (edit_all addr (e, t) s).0 ≡ e ++ s
unfolding edit_all find
edit_all-plain addr e t [] h k = rw (append-nil e) refl
edit_all-plain addr e t (c ∷ s) h k =
    let (same, apart) = edit_plain addr e t c s h (ground arith) in
    edit_all-plain addr (edit addr (e, t) c).0 (edit addr (e, t) c).1 s apart (ground arith)
    ∙ rw (same, append_assoc) refl

-- A page in which no slash stands behind a quotation mark is left as it is.
pub parse_html_body-plain :
    (serve_addr addr msg : Bytes)
    → target_addr serve_addr ≡ some addr
    → find (codes "\"/") msg ≡ none
    → parse_html_body serve_addr msg ≡ some msg
unfolding parse_html_body
parse_html_body-plain serve addr msg e h =
    rw (e, edit_all-plain addr [] [] msg (inl (λ x. cc)) h) refl
