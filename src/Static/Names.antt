-- ===== src/Static/Names.antt =====
-- The types of files, by names in their URIs: `configParser` without regular expressions.
use cs130capstoneproject.Base.{◌≡◌, refl, ◌↔◌, ◌⊎◌, inl, inr, Bool, true, false, [], ◌++◌}
use mathlib.Core.Path.{subst}
use cs130capstoneproject.Base.Bytes.{Bytes, codes}
use cs130capstoneproject.Base.Int.{ℤ, pos, negsuc}
use cs130capstoneproject.Base.Regex.{regex_match, regex_search}
use cs130capstoneproject.Static.Types.{dir, txt_html, jpg, png, favicon, file, config_parser}
use cs130capstoneproject.Static.Patterns.{
  IsDirectory, Has, is_dir_iff, ending_iff, text_iff, file_iff,
}

-- A test and what it tests.
abbrev Tested : Bool → Type 0 → Type 0
Tested b P = ((b ≡ true) × P) ⊎ ((b ≡ false) × ¬ P)

tested : (b : Bool) (P : Type 0) → (b ≡ true) ↔ P → Tested b P
tested true P h = inl (refl, h.0 refl)
tested false P h = inr (refl, λ p. cc (h.1 p))

-- The types that the code gives to URIs: of a directory, an icon, a text, two kinds of images, any
-- other file with a name of letters, and the rest.
pub data HasType (uri : Bytes) : ℤ → Type 0 where
  directory : IsDirectory uri → HasType uri (negsuc 0)
  icon : ¬ IsDirectory uri → Has (codes ".ico") uri → HasType uri (pos 0)
  text :
      ¬ IsDirectory uri
      → ¬ Has (codes ".ico") uri
      → Has (codes ".txt") uri ⊎ Has (codes ".html") uri
      → HasType uri (pos 1)
  png_image :
      ¬ IsDirectory uri
      → ¬ Has (codes ".ico") uri
      → ¬ (Has (codes ".txt") uri ⊎ Has (codes ".html") uri)
      → Has (codes ".png") uri
      → HasType uri (pos 2)
  jpg_image :
      ¬ IsDirectory uri
      → ¬ Has (codes ".ico") uri
      → ¬ (Has (codes ".txt") uri ⊎ Has (codes ".html") uri)
      → ¬ Has (codes ".png") uri
      → Has (codes ".jpg") uri
      → HasType uri (pos 3)
  other_file :
      ¬ IsDirectory uri
      → ¬ Has (codes ".ico") uri
      → ¬ (Has (codes ".txt") uri ⊎ Has (codes ".html") uri)
      → ¬ Has (codes ".png") uri
      → ¬ Has (codes ".jpg") uri
      → Has [] uri
      → HasType uri (pos 4)
  no_name : ¬ IsDirectory uri → ¬ Has [] uri → HasType uri (pos 0)

icon_iff : (uri : Bytes) → (regex_search favicon uri ≡ true) ↔ Has (codes ".ico") uri
unfolding favicon
icon_iff uri = ending_iff (codes ".ico") uri

png_iff : (uri : Bytes) → (regex_search png uri ≡ true) ↔ Has (codes ".png") uri
unfolding png
png_iff uri = ending_iff (codes ".png") uri

jpg_iff : (uri : Bytes) → (regex_search jpg uri ≡ true) ↔ Has (codes ".jpg") uri
unfolding jpg
jpg_iff uri = ending_iff (codes ".jpg") uri

config_parser-HasType : (uri : Bytes) → HasType uri (config_parser uri)
unfolding config_parser
config_parser-HasType uri = elim (tested (regex_match dir uri) (IsDirectory uri) (is_dir_iff uri)) [
  | inl (b, d) ↦ rw b (directory d)
  | inr (b0, nd) ↦
      elim (tested (regex_search favicon uri) (Has (codes ".ico") uri) (icon_iff uri)) [
        | inl (b, h) ↦ rw (b0, b) (icon nd h)
        | inr (b1, ni) ↦
            elim (tested (regex_search txt_html uri)
              (Has (codes ".txt") uri ⊎ Has (codes ".html") uri) (text_iff uri)) [
                | inl (b, h) ↦ rw (b0, b1, b) (text nd ni h)
                | inr (b2, nt) ↦
                    elim (tested (regex_search png uri) (Has (codes ".png") uri) (png_iff uri)) [
                      | inl (b, h) ↦ rw (b0, b1, b2, b) (png_image nd ni nt h)
                      | inr (b3, np) ↦
                          elim (tested (regex_search jpg uri) (Has (codes ".jpg") uri)
                            (jpg_iff uri)) [
                              | inl (b, h) ↦ rw (b0, b1, b2, b3, b) (jpg_image nd ni nt np h)
                              | inr (b4, nj) ↦
                                  elim (tested (regex_search file uri) (Has [] uri)
                                    (file_iff uri)) [
                                      | inl (b, h) ↦
                                          rw (b0, b1, b2, b3, b4, b) (other_file nd ni nt np nj h)
                                      | inr (b, nf) ↦ rw (b0, b1, b2, b3, b4, b) (no_name nd nf)
                                    ]
                            ]
                    ]
              ]
      ]
]

untested : (b : Bool) (P : Type 0) → (b ≡ true) ↔ P → ¬ P → b ≡ false
untested true P h np = absurd (np (h.0 refl))
untested false P h np = refl

Has-name : (ending uri : Bytes) → Has ending uri → Has [] uri
Has-name ending uri (a, name, b, e, some_name, l) = (a, name, ending ++ b, e, some_name, l)

HasType-config_parser : (uri : Bytes) (t : ℤ) → HasType uri t → config_parser uri ≡ t
unfolding config_parser
HasType-config_parser uri t (directory d) = rw ((is_dir_iff uri).1 d) refl
HasType-config_parser uri t (icon nd h) =
    rw (untested _ _ (is_dir_iff uri) nd, (icon_iff uri).1 h) refl
HasType-config_parser uri t (text nd ni h) =
    rw (untested _ _ (is_dir_iff uri) nd, untested _ _ (icon_iff uri) ni, (text_iff uri).1 h) refl
HasType-config_parser uri t (png_image nd ni nt h) =
    rw
      (
        untested _ _ (is_dir_iff uri) nd,
        untested _ _ (icon_iff uri) ni,
        untested _ _ (text_iff uri) nt,
        (png_iff uri).1 h,
      )
      refl
HasType-config_parser uri t (jpg_image nd ni nt np h) =
    rw
      (
        untested _ _ (is_dir_iff uri) nd,
        untested _ _ (icon_iff uri) ni,
        untested _ _ (text_iff uri) nt,
        untested _ _ (png_iff uri) np,
        (jpg_iff uri).1 h,
      )
      refl
HasType-config_parser uri t (other_file nd ni nt np nj h) =
    rw
      (
        untested _ _ (is_dir_iff uri) nd,
        untested _ _ (icon_iff uri) ni,
        untested _ _ (text_iff uri) nt,
        untested _ _ (png_iff uri) np,
        untested _ _ (jpg_iff uri) nj,
        (file_iff uri).1 h,
      )
      refl
HasType-config_parser uri t (no_name nd nf) =
    rw
      (
        untested _ _ (is_dir_iff uri) nd,
        untested _ _ (icon_iff uri) (λ h. nf (Has-name (codes ".ico") uri h)),
        untested _ _ (text_iff uri) (λ h. elim h [
          | inl x ↦ nf (Has-name (codes ".txt") uri x)
          | inr x ↦ nf (Has-name (codes ".html") uri x)
        ]),
        untested _ _ (png_iff uri) (λ h. nf (Has-name (codes ".png") uri h)),
        untested _ _ (jpg_iff uri) (λ h. nf (Has-name (codes ".jpg") uri h)),
        untested _ _ (file_iff uri) nf,
      )
      refl

-- The type of a URI is decided by whether it is one line that ends with a slash, and by the first of
-- the endings .ico, .txt or .html, .png, .jpg and the empty one that stands in it behind a slash and a
-- name of letters, wherever that is: it is just the type that this gives.
pub config_parser_iff : (uri : Bytes) (t : ℤ) → (config_parser uri ≡ t) ↔ HasType uri t
config_parser_iff uri t =
    ((λ e. subst (HasType uri) e (config_parser-HasType uri)), HasType-config_parser uri t)
