-- ===== src/Static/Roots.antt =====
-- Where `replace_path` leads.
use cs130capstoneproject.Base.{
  ℕ, zero, suc, ◌<◌, ◌≡◌, ◌≢◌, refl, sym, ap, ◌∙◌, ◌⊎◌, inl, inr, Option, none, some, [], ◌∷◌, ◌++◌,
  append-nil, append_assoc, arith, length, take, drop, Option-cases,
}
use cs130capstoneproject.Base.Bytes.{Bytes, equal_iff, find_last}
use cs130capstoneproject.Base.Map.{Map, lookup, lookup-assign}
use cs130capstoneproject.RequestParser.HeaderMap.{or_empty}
use cs130capstoneproject.Session.Nearest.{
  Above, Above-take, take-Above, Above-length, find_last-splits, find_last-none,
}
use cs130capstoneproject.Static.Paths.{index, search_root, replace_path, split_uri}

-- The root that the map has for a prefix.
abbrev pub root_of : Bytes → Map Bytes → Bytes
root_of prefix roots = or_empty (lookup prefix roots)

-- Two maps with the same roots.
abbrev pub SameRoots : Map Bytes → Map Bytes → Type 0
SameRoots roots roots' = (k : Bytes) → root_of k roots ≡ root_of k roots'

index-SameRoots : (prefix : Bytes) (roots : Map Bytes) → SameRoots (index prefix roots).1 roots
unfolding index
index-SameRoots prefix roots k = ground (arith, lookup-assign prefix k [] roots, equal_iff prefix k)

pub index-root :
    (prefix : Bytes) (roots : Map Bytes) → (index prefix roots).0 ≡ root_of prefix roots
unfolding index
index-root prefix roots = ground arith

-- A path of the file in the root of the longest prefix that has one, among the directory and what
-- stands before each of its slashes, with what stands behind the prefix.
pub record Leads (roots : Map Bytes) (directory file path : Bytes) : Type 0 where
  pub prefix : Bytes
  pub subpath : Bytes
  pub above : Above prefix directory
  pub splits : directory ≡ prefix ++ subpath
  pub has_root : root_of prefix roots ≢ []
  pub nearest : (q : Bytes) → Above q directory → length prefix < length q → root_of q roots ≡ []
  pub leads : path ≡ root_of prefix roots ++ (subpath ++ b'/' ∷ file)

-- No such prefix has a root.
abbrev LacksRoot : Map Bytes → Bytes → Type 0
LacksRoot roots directory = (q : Bytes) → Above q directory → root_of q roots ≡ []

-- The result of the search: a path, or the empty one if no prefix has a root, and the same roots.
pub record IsFound (roots : Map Bytes) (directory file : Bytes)
    (result : Option (Bytes × Map Bytes)) : Type 0 where
  pub path : Bytes
  pub after : Map Bytes
  pub returns : result ≡ some (path, after)
  pub same : SameRoots after roots
  pub leads : ((path ≡ []) × LacksRoot roots directory) ⊎ Leads roots directory file path

pub search_root-hit :
    (f : ℕ) (prefix subpath file : Bytes) (roots : Map Bytes) (c : ℕ) (root : Bytes)
    → (index prefix roots).0 ≡ c ∷ root
    → search_root (suc f) prefix subpath file roots
      ≡ some ((c ∷ root) ++ (subpath ++ b'/' ∷ file), (index prefix roots).1)
unfolding search_root
search_root-hit f prefix subpath file roots c root e = ground arith

search_root-top :
    (f : ℕ) (prefix subpath file : Bytes) (roots : Map Bytes)
    → (index prefix roots).0 ≡ []
    → find_last b'/' prefix ≡ none
    → search_root (suc f) prefix subpath file roots ≡ some ([], (index prefix roots).1)
unfolding search_root
search_root-top f prefix subpath file roots e t = ground arith

search_root-up :
    (f : ℕ) (prefix subpath file : Bytes) (roots : Map Bytes) (p : ℕ)
    → (index prefix roots).0 ≡ []
    → find_last b'/' prefix ≡ some p
    → search_root (suc f) prefix subpath file roots
      ≡ search_root f (take p prefix) (drop p prefix ++ subpath) file (index prefix roots).1
unfolding search_root
search_root-up f prefix subpath file roots p e t = ground arith

nil-cases : (s : Bytes) → (s ≡ []) ⊎ ((c : ℕ) × (t : Bytes) × (s ≡ c ∷ t))
nil-cases [] = inl refl
nil-cases (c ∷ t) = inr (c, t, refl)

take-drop : (n : ℕ) (s : Bytes) → take n s ++ drop n s ≡ s
take-drop zero s = refl
take-drop (suc n) [] = refl
take-drop (suc n) (c ∷ s) = ap (◌∷◌ c) (take-drop n s)

-- What is found from a map with the same roots.
Leads-SameRoots :
    (roots roots' : Map Bytes) (directory file path : Bytes)
    → SameRoots roots' roots
    → Leads roots' directory file path
    → Leads roots directory file path
Leads-SameRoots roots roots' directory file path same l = record {
  prefix = l.prefix;
  subpath = l.subpath;
  above = l.above;
  splits = l.splits;
  nearest = λ q a longer. sym (same q) ∙ l.nearest q a longer;
  has_root = rw (← same l.prefix) l.has_root;
  leads = rw (← same l.prefix) l.leads;
}

-- What the search has still to look at: the prefix and what is above it. What is above the directory
-- and not above the prefix has no root.
record IsLeft (roots : Map Bytes) (directory prefix : Bytes) : Type 0 where
  up : (q : Bytes) → Above q prefix → Above q directory
  missed : (q : Bytes) → Above q directory → Above q prefix ⊎ (root_of q roots ≡ [])

IsLeft-take :
    (directory prefix : Bytes) (roots later : Map Bytes) (p : ℕ)
    → find_last b'/' prefix ≡ some p
    → root_of prefix roots ≡ []
    → SameRoots later roots
    → IsLeft roots directory prefix
    → IsLeft later directory (take p prefix)
IsLeft-take directory prefix roots later p h empty same left = record {
  up = λ q a. left.up q (take-Above prefix q p h a);
  missed = λ q a. elim (left.missed q a) [
    | inr lacks ↦ inr (same q ∙ lacks)
    | inl over ↦ elim (Above-take prefix q p h over) [
      | inl here ↦ inr (same q ∙ ap (λ k. root_of k roots) here ∙ empty)
      | inr above ↦ inl above
    ]
  ];
}

IsLeft-hit :
    (directory prefix q : Bytes) (roots : Map Bytes)
    → IsLeft roots directory prefix
    → Above q directory
    → length prefix < length q
    → root_of q roots ≡ []
IsLeft-hit directory prefix q roots left a longer = elim (left.missed q a) [
  | inr lacks ↦ lacks
  | inl above ↦ absurd (omega (arith, Above-length q prefix above))
]

IsLeft-top :
    (directory prefix : Bytes) (roots : Map Bytes)
    → IsLeft roots directory prefix
    → find_last b'/' prefix ≡ none
    → root_of prefix roots ≡ []
    → LacksRoot roots directory
IsLeft-top directory prefix roots left top empty q a = elim (left.missed q a) [
  | inr lacks ↦ lacks
  | inl (inl here) ↦ ap (λ k. root_of k roots) here ∙ empty
  | inl (inr (r, e)) ↦ absurd (find_last-none b'/' prefix q r top e)
]

-- What the search above the prefix finds is what is found.
IsFound-later :
    (roots later : Map Bytes) (directory file : Bytes) (result : Option (Bytes × Map Bytes))
    → SameRoots later roots
    → IsFound later directory file result
    → IsFound roots directory file result
IsFound-later roots later directory file result same r = record {
  path = r.path;
  after = r.after;
  returns = r.returns;
  same = λ k. r.same k ∙ same k;
  leads = elim r.leads [
    | inl (empty, lacks) ↦ inl (empty, λ q a. sym (same q) ∙ lacks q a)
    | inr l ↦ inr (Leads-SameRoots roots later directory file r.path same l)
  ];
}

search_root-IsFound :
    (f : ℕ) (directory prefix subpath file : Bytes) (roots : Map Bytes)
    → length prefix < f
    → directory ≡ prefix ++ subpath
    → IsLeft roots directory prefix
    → IsFound roots directory file (search_root f prefix subpath file roots)
search_root-IsFound zero directory prefix subpath file roots h e left = absurd (omega arith)
search_root-IsFound (suc f) directory prefix subpath file roots h e left =
    elim (nil-cases (index prefix roots).0) [
      | inr (c, root, found) ↦ record {
        path = (c ∷ root) ++ (subpath ++ b'/' ∷ file);
        after = (index prefix roots).1;
        returns = search_root-hit f prefix subpath file roots c root found;
        same = index-SameRoots prefix roots;
        leads = inr (record {
          prefix = prefix;
          subpath = subpath;
          above = left.up prefix (inl refl);
          splits = e;
          has_root = rw (← index-root prefix roots, found) (λ x. cc);
          nearest = λ q. IsLeft-hit directory prefix q roots left;
          leads = ap (λ r. r ++ (subpath ++ b'/' ∷ file)) (sym found ∙ index-root prefix roots);
        });
      }
      | inl empty ↦
          let lacks = sym (index-root prefix roots) ∙ empty in
          elim (Option-cases (find_last b'/' prefix)) [
            | inl top ↦ record {
              path = [];
              after = (index prefix roots).1;
              returns = search_root-top f prefix subpath file roots empty top;
              same = index-SameRoots prefix roots;
              leads = inl (refl, IsLeft-top directory prefix roots left top lacks);
            }
            | inr (p, up) ↦
                let later = (index prefix roots).1 in
                let same = index-SameRoots prefix roots in
                rw (search_root-up f prefix subpath file roots p empty up) (
                  IsFound-later roots later directory file _ same (
                    search_root-IsFound f directory (take p prefix) (drop p prefix ++ subpath) file
                      later (omega (arith, (find_last-splits b'/' prefix p up).1))
                      (e
                        ∙ ap (λ s. s ++ subpath) (sym (take-drop p prefix))
                        ∙ append_assoc (take p prefix) (drop p prefix) subpath)
                      (IsLeft-take directory prefix roots later p up lacks same left)))
          ]
    ]

-- `replace_path` returns on every URI, and changes the root of no prefix. The path is that of the file,
-- in the root of the longest prefix that has one, among the directory and what stands before each of its
-- slashes, behind the rest of the directory as it stands in the URI; it is empty if none has a root.
pub replace_path-IsFound :
    (uri : Bytes) (roots : Map Bytes)
    → let (directory, file) = split_uri uri (find_last b'/' uri) in
      IsFound roots directory file (replace_path uri roots)
unfolding replace_path
replace_path-IsFound uri roots =
    let (directory, file) = split_uri uri (find_last b'/' uri) in
    search_root-IsFound (suc (length directory)) directory directory [] file roots (omega arith)
      (sym (append-nil directory)) (record { up = λ q a. a; missed = λ q a. inl a })
