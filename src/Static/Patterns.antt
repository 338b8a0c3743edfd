-- ===== src/Static/Patterns.antt =====
-- The texts that the patterns of `configParser` find.
use cs130capstoneproject.Base.{
  ==_iff, ℕ, ◌≡◌, ◌≢◌, refl, sym, ap, ◌∙◌, ◌↔◌, ◌⊎◌, inl, inr, Bool, true, not, ◌&&◌, [], ◌∷◌, ◌++◌,
  ◌==◌, arith, All, append_assoc,
}
use mathlib.Core.Path.{subst}
use cs130capstoneproject.Base.Bytes.{Bytes, codes}
use cs130capstoneproject.Base.Regex.{Regex, one, seq, alt, literal, regex_match, regex_search}
use cs130capstoneproject.Base.Language.{
  Matches, Repeated, none_left, more, Contains, regex_match_iff, regex_search_iff,
}
use cs130capstoneproject.Static.Types.{is_letter, letters, dir, txt_html, file}

-- A byte that is no end of a line.
abbrev pub is_inner : ℕ → Bool
is_inner c = not (c == b'\n') && not (c == b'\r')

-- The URI ends with a slash and has one line.
abbrev pub IsDirectory : Bytes → Type 0
IsDirectory uri = (t : Bytes) × (uri ≡ t ++ b'/' ∷ []) × All (λ c. is_inner c ≡ true) t

-- Somewhere in the URI are a slash, a name of letters, and an ending.
abbrev pub Has : Bytes → Bytes → Type 0
Has ending uri =
    (a : Bytes) × (name : Bytes) × (b : Bytes) × (uri ≡ a ++ b'/' ∷ (name ++ (ending ++ b)))
    × (name ≢ [])
    × All (λ c. is_letter c ≡ true) name

literal_iff : (l s : Bytes) → Matches (literal l) s ↔ (s ≡ l)
unfolding literal
literal_iff [] s = ((λ e. e), λ e. e)
literal_iff (c ∷ l) s = (
  (λ h.
      let (t, u, e, (d, f, g), m) = h in
      e ∙ ap (λ x. x ++ u) f ∙ (λ i. (==_iff d c).0 g i ∷ (literal_iff l u).0 m i)),
  λ e. (c ∷ [], l, e, (c, refl, ground arith), (literal_iff l l).1 refl),
)

-- Any number of bytes with a property.
repeated-All : (p : ℕ → Bool) (s : Bytes) → Repeated (Matches (one p)) s → All (λ c. p c ≡ true) s
repeated-All p s (none_left e) = subst (All (λ c. p c ≡ true)) (sym e) tt
repeated-All p s (more c t u e (d, f, g) n) =
    subst (All (λ c. p c ≡ true)) (sym (e ∙ ap (λ x. x ++ u) f)) (g, repeated-All p u n)

All-repeated : (p : ℕ → Bool) (s : Bytes) → All (λ c. p c ≡ true) s → Repeated (Matches (one p)) s
All-repeated p [] h = none_left refl
All-repeated p (c ∷ s) (h, hs) = more c [] s refl (c, refl, h) (All-repeated p s hs)

-- [a-zA-Z]+
letters-name : (s : Bytes) → Matches letters s → (s ≢ []) × All (λ c. is_letter c ≡ true) s
letters-name s (t, u, e, (c, f, g), n) =
    let whole = e ∙ ap (λ x. x ++ u) f in
    (
      (λ empty. cc (whole, empty)),
      subst (All (λ c. is_letter c ≡ true)) (sym whole) (g, repeated-All is_letter u n),
    )

name-letters : (s : Bytes) → s ≢ [] → All (λ c. is_letter c ≡ true) s → Matches letters s
name-letters [] some_name h = absurd (some_name refl)
name-letters (c ∷ s) some_name (h, hs) =
    (c ∷ [], s, refl, (c, refl, h), All-repeated is_letter s hs)

dir_iff : (uri : Bytes) → Matches dir uri ↔ IsDirectory uri
unfolding dir
dir_iff uri = (
  (λ h.
      let (t, u, e, m, n) = h in
      (t, e ∙ ap (λ x. t ++ x) ((literal_iff (codes "/") u).0 n), repeated-All is_inner t m)),
  λ d.
      let (t, e, inner) = d in
      (
        t,
        codes "/",
        e,
        All-repeated is_inner t inner,
        (literal_iff (codes "/") (codes "/")).1 refl,
      ),
)

-- A slash, a name, and an ending in the language of an expression.
abbrev named : Regex → Regex
named r = seq (literal (codes "/")) (seq letters r)

named-Has :
    (r : Regex) (ending uri : Bytes)
    → ((s : Bytes) → Matches r s → s ≡ ending)
    → Contains (named r) uri
    → Has ending uri
named-Has r ending uri only (a, t, b, e, (slash, rest, f, m, (name, end, g, l, k))) = (
  a,
  name,
  b,
  e
      ∙ ap (λ x. a ++ (x ++ b))
          (f ∙ (λ i.
            (literal_iff (codes "/") slash).0 m i ++ (g ∙ ap (λ x. name ++ x) (only end k)) i))
      ∙ ap (λ x. a ++ (b'/' ∷ x)) (append_assoc name ending b),
  (letters-name name l).0,
  (letters-name name l).1,
)

Has-named :
    (r : Regex) (ending uri : Bytes) → Matches r ending → Has ending uri → Contains (named r) uri
Has-named r ending uri m (a, name, b, e, some_name, letters) = (
  a,
  b'/' ∷ (name ++ ending),
  b,
  e ∙ ap (λ x. a ++ (b'/' ∷ x)) (sym (append_assoc name ending b)),
  (
    codes "/",
    name ++ ending,
    refl,
    (literal_iff (codes "/") (codes "/")).1 refl,
    (name, ending, refl, name-letters name some_name letters, m),
  ),
)

pub ending_iff :
    (ending uri : Bytes) → (regex_search (named (literal ending)) uri ≡ true) ↔ Has ending uri
ending_iff ending uri = (
  (λ h.
      named-Has (literal ending) ending uri (λ s. (literal_iff ending s).0)
        ((regex_search_iff (named (literal ending)) uri).0 h)),
  λ h.
      (regex_search_iff (named (literal ending)) uri).1
        (Has-named (literal ending) ending uri ((literal_iff ending ending).1 refl) h),
)

pub file_iff : (uri : Bytes) → (regex_search file uri ≡ true) ↔ Has [] uri
unfolding file
file_iff uri = (
  (λ h.
      let (a, t, b, e, (slash, name, f, m, l)) = (regex_search_iff file uri).0 h in
      (
        a,
        name,
        b,
        e ∙ ap (λ x. a ++ (x ++ b)) (f ∙ ap (λ x. x ++ name) ((literal_iff (codes "/") slash).0 m)),
        (letters-name name l).0,
        (letters-name name l).1,
      )),
  λ h.
      let (a, name, b, e, some_name, l) = h in
      (regex_search_iff file uri).1 (
        a,
        b'/' ∷ name,
        b,
        e,
        (
          codes "/",
          name,
          refl,
          (literal_iff (codes "/") (codes "/")).1 refl,
          name-letters name some_name l,
        ),
      ),
)

-- The ending of a text.
text-ending :
    (s : Bytes)
    → Matches (seq (literal (codes ".")) (alt (literal (codes "txt")) (literal (codes "html")))) s
    → (s ≡ codes ".txt") ⊎ (s ≡ codes ".html")
text-ending s (t, u, e, m, inl n) =
    inl (e ∙ (λ i. (literal_iff (codes ".") t).0 m i ++ (literal_iff (codes "txt") u).0 n i))
text-ending s (t, u, e, m, inr n) =
    inr (e ∙ (λ i. (literal_iff (codes ".") t).0 m i ++ (literal_iff (codes "html") u).0 n i))

pub text_iff :
    (uri : Bytes)
    → (regex_search txt_html uri ≡ true) ↔ (Has (codes ".txt") uri ⊎ Has (codes ".html") uri)
unfolding txt_html
text_iff uri = (
  (λ h.
      let (a, t, b, e, (slash, rest, f, m, (name, end, g, l, k))) =
        (regex_search_iff txt_html uri).0 h in
      elim (text-ending end k) [
        | inl x ↦ inl (
            named-Has (literal (codes ".txt")) (codes ".txt") uri
              (λ s. (literal_iff (codes ".txt") s).0)
              (
                a,
                t,
                b,
                e,
                (slash, rest, f, m, (name, end, g, l, (literal_iff (codes ".txt") end).1 x)),
              ))
        | inr x ↦ inr (
            named-Has (literal (codes ".html")) (codes ".html") uri
              (λ s. (literal_iff (codes ".html") s).0)
              (
                a,
                t,
                b,
                e,
                (slash, rest, f, m, (name, end, g, l, (literal_iff (codes ".html") end).1 x)),
              ))
      ]),
  λ h. (regex_search_iff txt_html uri).1 (elim h [
    | inl x ↦
        Has-named (seq (literal (codes ".")) (alt (literal (codes "txt")) (literal (codes "html"))))
          (codes ".txt") uri
          (
            codes ".",
            codes "txt",
            refl,
            (literal_iff (codes ".") (codes ".")).1 refl,
            inl ((literal_iff (codes "txt") (codes "txt")).1 refl),
          )
          x
    | inr x ↦
        Has-named (seq (literal (codes ".")) (alt (literal (codes "txt")) (literal (codes "html"))))
          (codes ".html") uri
          (
            codes ".",
            codes "html",
            refl,
            (literal_iff (codes ".") (codes ".")).1 refl,
            inr ((literal_iff (codes "html") (codes "html")).1 refl),
          )
          x
  ]),
)

pub is_dir_iff : (uri : Bytes) → (regex_match dir uri ≡ true) ↔ IsDirectory uri
is_dir_iff uri = (
  (λ h. (dir_iff uri).0 ((regex_match_iff dir uri).0 h)),
  λ d. (regex_match_iff dir uri).1 ((dir_iff uri).1 d),
)
