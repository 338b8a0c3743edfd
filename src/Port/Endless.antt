-- ===== src/Port/Endless.antt =====
-- Files on which `port::setConfigBlocks` does not end.
use cs130capstoneproject.Base.{
  ℕ, zero, suc, ◌≡◌, ◌⊎◌, refl, ap, Bool, true, false, none, [], ◌∷◌, ◌++◌, ◌==◌, All, All-concat,
  Bool-cases, inl, inr, if◌then◌else◌,
}
use mathlib.Core.Path.{subst}
use cs130capstoneproject.Base.Bytes.{Bytes, codes, equal, equal_iff}
use cs130capstoneproject.Config.Lexer.{
  TokenType, TokenState, initial_whitespace, single_quote, double_quote, in_comment, in_normal,
  Action, emit, unget, continue, step_token, step_initial, token_from, parse_token, get_token,
  ends_token,
}
use cs130capstoneproject.Config.Lexing.{IsToken}
use cs130capstoneproject.Config.Syntax.{Config}
use cs130capstoneproject.Config.Safety.{parse-returns}
use cs130capstoneproject.Port.Skips.{get_token-IsToken, get_token-space}
use cs130capstoneproject.Port.Blocks.{
  skip_to, is_listed, read_blocks, read_token, set_config_blocks, endless,
}

-- No byte is a closing brace.
abbrev pub Unclosed : Bytes → Type 0
Unclosed s = All (λ c. (c == b'}') ≡ false) s

abbrev KeepsOpen : Action → Type 0
KeepsOpen (emit t w) = Unclosed w
KeepsOpen (unget t w) = Unclosed w
KeepsOpen (continue st w) = Unclosed w

KeepsOpen-if :
    (b : Bool) (x y : Action) → KeepsOpen x → KeepsOpen y → KeepsOpen (if b then x else y)
KeepsOpen-if true x y hx hy = hx
KeepsOpen-if false x y hx hy = hy

step_token-KeepsOpen :
    (st : TokenState) (v : Bytes) (c : ℕ)
    → Unclosed v
    → Unclosed (c ∷ [])
    → Unclosed (v ++ c ∷ [])
    → KeepsOpen (step_token st v c)
unfolding step_token step_initial
step_token-KeepsOpen initial_whitespace v c h (hc, _) more =
    rw hc (search (KeepsOpen-if, hc, more, h) depth 12)
step_token-KeepsOpen single_quote v c h hc more = search (KeepsOpen-if)
step_token-KeepsOpen double_quote v c h hc more = search (KeepsOpen-if)
step_token-KeepsOpen in_comment v c h hc more = search (KeepsOpen-if)
step_token-KeepsOpen in_normal v c h hc more = search (KeepsOpen-if)

Action-cases :
    (a : Action)
    → ((t : TokenType) × (w : Bytes) × (a ≡ emit t w))
      ⊎ ((t : TokenType) × (w : Bytes) × (a ≡ unget t w))
      ⊎ ((st : TokenState) × (w : Bytes) × (a ≡ continue st w))
Action-cases (emit t w) = inl (t, w, refl)
Action-cases (unget t w) = inr (inl (t, w, refl))
Action-cases (continue st w) = inr (inr (st, w, refl))

-- A token of such a text, and what is behind it, have no closing brace.
token_from-Unclosed :
    (st : TokenState) (v s : Bytes)
    → Unclosed v
    → Unclosed s
    → Unclosed (token_from st v s).value × Unclosed (token_from st v s).rest
unfolding token_from
token_from-Unclosed st v [] hv hs = (hv, tt)
token_from-Unclosed st v (c ∷ s) hv (hc, hs) =
    let kept = step_token-KeepsOpen st v c hv (hc, tt) (All-concat _ v hv hc) in
    elim (Action-cases (step_token st v c)) [
      | inl (t, w, e) ↦ rw (e, token_from) (subst KeepsOpen e kept, hs)
      | inr (inl (t, w, e)) ↦ rw (e, token_from) (subst KeepsOpen e kept, (hc, hs))
      | inr (inr (st', w, e)) ↦
          rw (e, token_from) (token_from-Unclosed st' w s (subst KeepsOpen e kept) hs)
    ]

get_token-Unclosed : (s : Bytes) → Unclosed s → Unclosed (get_token s).0 × Unclosed (get_token s).1
unfolding get_token parse_token
get_token-Unclosed s h = token_from-Unclosed initial_whitespace [] s tt h

Unclosed-ne-brace : (s : Bytes) → Unclosed s → equal s (codes "}") ≡ false
unfolding equal
Unclosed-ne-brace [] h = refl
Unclosed-ne-brace (c ∷ s) (hc, hs) = rw hc refl

skip_to-Unclosed :
    (f : ℕ) (token input : Bytes)
    → equal token (codes "}") ≡ false
    → Unclosed input
    → skip_to f (codes "}") token input ≡ none
unfolding skip_to
skip_to-Unclosed zero token input ht hi = refl
skip_to-Unclosed (suc f) token input ht hi =
    let next = get_token-Unclosed input hi in
    rw (ht, skip_to)
      (skip_to-Unclosed f (get_token input).0 (get_token input).1
        (Unclosed-ne-brace (get_token input).0 next.0) next.1)

-- A type that is listed is no brace.
is_listed-ne-brace : (t : Bytes) → is_listed t ≡ true → equal t (codes "}") ≡ false
unfolding is_listed equal
is_listed-ne-brace t h = elim (Bool-cases (equal t (codes "}"))) [
  | inr e ↦ e
  | inl e ↦ cc (h, ap is_listed ((equal_iff t (codes "}")).0 e))
]

-- A location with a prefix, the type of its handler, and what follows.
abbrev pub location_text : Bytes → Bytes → ℕ → Bytes → Bytes
location_text prefix t d rest = codes "location" ++ b' ' ∷ (prefix ++ b' ' ∷ (t ++ d ∷ rest))

read_token-Unclosed :
    (f : ℕ) (prefix t rest : Bytes) (d : ℕ)
    → IsToken t
    → is_listed t ≡ true
    → ends_token d ≡ true
    → Unclosed (d ∷ rest)
    → read_token f true prefix (b' ' ∷ (t ++ d ∷ rest)) [] ≡ none
read_token-Unclosed f prefix t rest d ht listed e open_rest =
    rw
      (
        get_token-space (t ++ d ∷ rest),
        get_token-IsToken t rest d ht e,
        listed,
        skip_to-Unclosed f t (d ∷ rest) (is_listed-ne-brace t listed) open_rest,
      )
      refl

pub location-IsToken : IsToken (codes "location")
unfolding ends_token
location-IsToken = inl (refl, (refl, (refl, (refl, (refl, (refl, (refl, (refl, tt))))))))

-- Behind the word.
read_blocks-Unclosed :
    (f : ℕ) (prefix t rest : Bytes) (d : ℕ)
    → IsToken prefix
    → IsToken t
    → is_listed t ≡ true
    → ends_token d ≡ true
    → Unclosed (d ∷ rest)
    → read_blocks f (codes "location") prefix (b' ' ∷ (t ++ d ∷ rest)) [] ≡ none
unfolding read_blocks equal
read_blocks-Unclosed zero prefix t rest d hp ht listed e open_rest = refl
read_blocks-Unclosed (suc f) [] t rest d (inl hp) ht listed e open_rest = absurd hp
read_blocks-Unclosed (suc f) [] t rest d (inr (inl (i, q, _))) ht listed e open_rest = cc
read_blocks-Unclosed (suc f) [] t rest d (inr (inr (i, q, _))) ht listed e open_rest = cc
read_blocks-Unclosed (suc f) (c ∷ p) t rest d hp ht listed e open_rest =
    rw (read_token-Unclosed f (c ∷ p) t rest d ht listed e open_rest, read_blocks) refl

first_round :
    (f : ℕ) (prefix t rest : Bytes) (d : ℕ)
    → IsToken prefix
    → IsToken t
    → is_listed t ≡ true
    → ends_token d ≡ true
    → Unclosed (d ∷ rest)
    → read_blocks f [] (codes "location") (b' ' ∷ (prefix ++ b' ' ∷ (t ++ d ∷ rest))) [] ≡ none
unfolding read_blocks equal ends_token
first_round zero prefix t rest d hp ht listed e open_rest = refl
first_round (suc f) prefix t rest d hp ht listed e open_rest =
    rw
      (
        get_token-space (prefix ++ b' ' ∷ (t ++ d ∷ rest)),
        get_token-IsToken prefix (t ++ d ∷ rest) b' ' hp refl,
      )
      (read_blocks-Unclosed f prefix t rest d hp ht listed e open_rest)

-- On a file that begins with a location of a listed type of handler, with no closing brace behind the
-- type, `setConfigBlocks` does not end: no number of rounds is enough.
pub set_config_blocks-endless :
    (f : ℕ) (config : Config) (prefix t rest : Bytes) (d : ℕ)
    → IsToken prefix
    → IsToken t
    → is_listed t ≡ true
    → ends_token d ≡ true
    → Unclosed (d ∷ rest)
    → set_config_blocks f config (location_text prefix t d rest) ≡ endless
unfolding set_config_blocks ends_token
set_config_blocks-endless f config prefix t rest d hp ht listed e open_rest =
    let text = prefix ++ b' ' ∷ (t ++ d ∷ rest) in
    rw
      (
        get_token-IsToken (codes "location") text b' ' location-IsToken refl,
        first_round f prefix t rest d hp ht listed e open_rest,
        (parse-returns config [] (location_text prefix t d rest)).2,
      )
      refl
