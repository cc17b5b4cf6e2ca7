-- ===== src/Config/Laws.antt =====
-- What the source roots of crates/secrets/src/config.rs are, once they are accepted.
use forward.Prelude.{
  ◌≡◌, refl, sym, ap, ◌∙◌, ◌⊎◌, Bool, true, false, not, ◌&&◌, Option, none, some, List, [], ◌∷◌,
  ◌++◌, arith, Text, All, All-append, Bool-cases, inl, inr,
}
use mathlib.Core.Path.{subst}
use forward.Config.{
  ConfigError, bad_root_name, relative_path, no_home, Checked, ok, err, ◌>>=◌, SourceRoot,
  is_root_name, is_absolute, path_eq, has_parent, expand_home, resolve_path, name_of, add_root,
  raw_path, read_root, read_roots, Document, malformed, other_shape, source_table, parse_document,
  parse,
}

-- A root whose name and path are in order.
abbrev pub IsValidRoot : SourceRoot → Type 0
IsValidRoot root =
    (is_root_name root.name ≡ true)
    × (is_absolute root.path ≡ true)
    × (has_parent root.path ≡ false)

-- No two roots have one path.
abbrev pub HasDistinctPaths : List SourceRoot → Type 0
HasDistinctPaths [] = Unit
HasDistinctPaths (root ∷ roots) =
    All (λ other. path_eq root.path other.path ≡ false) roots × HasDistinctPaths roots

Checked-cases {ℓ} :
    {A : Type ℓ} (r : Checked A) → ((e : ConfigError) × (r ≡ err e)) ⊎ ((a : A) × (r ≡ ok a))
Checked-cases (err e) = inl (e, refl)
Checked-cases (ok a) = inr (a, refl)

ok_of_bind {ℓ κ} :
    {A : Type ℓ} {B : Type κ} (r : Checked A) (f : A → Checked B) {b : B}
    → (r >>= f) ≡ ok b
    → (a : A) × (r ≡ ok a) × (f a ≡ ok b)
ok_of_bind (ok a) f h = (a, refl, h)
ok_of_bind (err e) f h = absurd (cc h)

name_of-none :
    (path : Text) (roots : List SourceRoot)
    → name_of path roots ≡ none
    → All (λ root. path_eq root.path path ≡ false) roots
name_of-none path [] h = tt
name_of-none path (root ∷ roots) h = elim (Bool-cases (path_eq root.path path)) [
  | inl same ↦ absurd (ground (arith, same))
  | inr other ↦ (other, name_of-none path roots (sym (rw other refl) ∙ h))
]

distinct_push :
    (roots : List SourceRoot) (root : SourceRoot)
    → HasDistinctPaths roots
    → All (λ other. path_eq other.path root.path ≡ false) roots
    → HasDistinctPaths (roots ++ root ∷ [])
distinct_push [] root h apart = (tt, tt)
distinct_push (r ∷ roots) root h apart = (
  All-append (λ other. path_eq r.path other.path ≡ false) roots (root ∷ []) h.0 (apart.0, tt),
  distinct_push roots root h.1 apart.1,
)

resolve_path-ok :
    (raw home path : Text)
    → resolve_path raw home ≡ ok path
    → (path ≡ expand_home raw home) × (is_absolute path ≡ true) × (has_parent path ≡ false)
unfolding resolve_path
resolve_path-ok raw home path h =
    elim (Bool-cases
      (is_absolute (expand_home raw home) && not (has_parent (expand_home raw home)))) [
        | inr refused ↦ absurd (ok_is_not_err (relative_path raw) path (sym (rw refused refl) ∙ h))
        | inl taken ↦
            let same : expand_home raw home ≡ path =
              ok-injective (expand_home raw home) path (sym (rw taken refl) ∙ h) in
            let (absolute, parentless) =
              both (is_absolute (expand_home raw home)) (has_parent (expand_home raw home)) taken in
            (
              sym same,
              subst (λ p. is_absolute p ≡ true) same absolute,
              subst (λ p. has_parent p ≡ false) same parentless,
            )
      ]
  where
    ok_is_not_err : (e : ConfigError) (a : Text) → err e ≡ ok a → ⊥
    ok_is_not_err e a k = cc k

    ok-injective : (a b : Text) → ok a ≡ ok b → a ≡ b
    ok-injective a b k = cc k

    both : (a b : Bool) → (a && not b) ≡ true → (a ≡ true) × (b ≡ false)
    both a b k = (ground arith, ground arith)

add_root-ok :
    (name path : Text) (first : Option Text) (roots roots' : List SourceRoot)
    → add_root name path first roots ≡ ok roots'
    → (first ≡ none) × (roots' ≡ roots ++ record { name = name; path = path } ∷ [])
unfolding add_root
add_root-ok name path none roots roots' h = (refl, cc h)
add_root-ok name path (some first) roots roots' h = absurd (cc h)

raw_path-ok : (value : Option Text) (raw : Text) → raw_path value ≡ ok raw → value ≡ some raw
unfolding raw_path
raw_path-ok none raw h = absurd (cc h)
raw_path-ok (some path) raw h = cc h

read_root-ok :
    (home name : Text) (value : Option Text) (roots roots' : List SourceRoot)
    → read_root home name value roots ≡ ok roots'
    → (root : SourceRoot) × (roots' ≡ roots ++ root ∷ [])
      × (root.name ≡ name)
      × (raw : Text) × (value ≡ some raw)
      × (root.path ≡ expand_home raw home)
      × IsValidRoot root
      × All (λ other. path_eq other.path root.path ≡ false) roots
unfolding read_root
read_root-ok home name value roots roots' h = elim (Bool-cases (is_root_name name)) [
  | inr refused ↦ absurd (no (bad_root_name name) roots' (sym (rw refused refl) ∙ h))
  | inl named ↦
      let (raw, is_raw, more) =
        ok_of_bind (raw_path value) (continued value) (sym (rw named refl) ∙ h) in
      let (path, resolved, added) =
        ok_of_bind (resolve_path raw home) (λ path. add_root name path (name_of path roots) roots)
          more in
      let (fresh, same) = add_root-ok name path (name_of path roots) roots roots' added in
      let (is_path, absolute, parentless) = resolve_path-ok raw home path resolved in
      (
        record { name = name; path = path },
        same,
        refl,
        raw,
        raw_path-ok value raw is_raw,
        is_path,
        (named, absolute, parentless),
        name_of-none path roots fresh,
      )
]
  where
    no : (e : ConfigError) (a : List SourceRoot) → err e ≡ ok a → ⊥
    no e a k = cc k

    continued : Option Text → Text → Checked (List SourceRoot)
    continued v raw =
        resolve_path raw home >>= λ path. add_root name path (name_of path roots) roots

-- The roots of some entries, one for each, in their order.
pub data RootsOf (home : Text) : List (Text × Option Text) → List SourceRoot → Type 0 where
  no_root : RootsOf home [] []
  one_root :
      {root : SourceRoot} {raw : Text} {entries : List (Text × Option Text)}
      {roots : List SourceRoot}
      → root.path ≡ expand_home raw home
      → IsValidRoot root
      → RootsOf home entries roots
      → RootsOf home ((root.name, some raw) ∷ entries) (root ∷ roots)

shift :
    (roots more : List SourceRoot) (root : SourceRoot)
    → (roots ++ root ∷ []) ++ more ≡ roots ++ root ∷ more
shift [] more root = refl
shift (r ∷ roots) more root = ap (λ t. r ∷ t) (shift roots more root)

nothing_more : (roots : List SourceRoot) → roots ++ [] ≡ roots
nothing_more [] = refl
nothing_more (r ∷ roots) = ap (λ t. r ∷ t) (nothing_more roots)

entry :
    {home : Text} (name : Text) (value : Option Text) (raw : Text)
    (entries : List (Text × Option Text)) (root : SourceRoot) (more : List SourceRoot)
    → root.name ≡ name
    → value ≡ some raw
    → RootsOf home ((root.name, some raw) ∷ entries) (root ∷ more)
    → RootsOf home ((name, value) ∷ entries) (root ∷ more)
entry {home} name value raw entries root more named is_raw h =
    subst (λ v. RootsOf home ((name, v) ∷ entries) (root ∷ more)) (sym is_raw)
      (subst (λ n. RootsOf home ((n, some raw) ∷ entries) (root ∷ more)) named h)

read_roots-ok :
    (home : Text) (entries : List (Text × Option Text)) (roots roots' : List SourceRoot)
    → HasDistinctPaths roots
    → read_roots home entries roots ≡ ok roots'
    → (more : List SourceRoot) × (roots' ≡ roots ++ more)
      × RootsOf home entries more
      × HasDistinctPaths roots'
unfolding read_roots
read_roots-ok home [] roots roots' distinct h =
    let same : roots ≡ roots' = cc h in
    ([], sym same ∙ sym (nothing_more roots), no_root, subst HasDistinctPaths same distinct)
read_roots-ok home ((name, value) ∷ entries) roots roots' distinct h =
    let (next, read, rest) =
      ok_of_bind (read_root home name value roots) (λ r. read_roots home entries r) h in
    let (root, pushed, named, raw, is_raw, path, valid, apart) =
      read_root-ok home name value roots next read in
    let kept = subst HasDistinctPaths (sym pushed) (distinct_push roots root distinct apart) in
    let (more, same, below, all_distinct) = read_roots-ok home entries next roots' kept rest in
    (
      root ∷ more,
      same ∙ ap (λ t. t ++ more) pushed ∙ shift roots more root,
      entry name value raw entries root more named is_raw (one_root path valid below),
      all_distinct,
    )

-- A configuration that is accepted has a root for each entry of its source table, in the table's
-- order: at least one, each with a root's name, each at an absolute path without parent segments, which
-- is the entry's path with the home directory put in for a leading `~`, and no two at one path.
pub parse-ok :
    (home : Text) (document : Document) (roots : List SourceRoot)
    → parse home document ≡ ok roots
    → (entry : Text × Option Text) × (entries : List (Text × Option Text)) × (document
        ≡ source_table (entry ∷ entries))
      × RootsOf home (entry ∷ entries) roots
      × HasDistinctPaths roots
      × (is_absolute home ≡ true)
unfolding parse parse_document
parse-ok home document roots h = elim (Bool-cases (is_absolute home)) [
  | inr relative ↦ absurd (no no_home roots (sym (rw relative refl) ∙ h))
  | inl absolute ↦
      let (first, entries, is_table, roots_of, distinct) =
        table document (sym (rw absolute refl) ∙ h) in
      (first, entries, is_table, roots_of, distinct, absolute)
]
  where
    no : (e : ConfigError) (a : List SourceRoot) → err e ≡ ok a → ⊥
    no e a k = cc k

    table :
        (d : Document)
        → parse_document home d ≡ ok roots
        → (first : Text × Option Text) × (entries : List (Text × Option Text)) × (d
            ≡ source_table (first ∷ entries))
          × RootsOf home (first ∷ entries) roots
          × HasDistinctPaths roots
    table malformed k = absurd (cc k)
    table other_shape k = absurd (cc k)
    table (source_table []) k = absurd (cc k)
    table (source_table (first ∷ entries)) k =
        let (more, same, roots_of, distinct) = read_roots-ok home (first ∷ entries) [] roots tt k in
        (first, entries, refl, subst (RootsOf home (first ∷ entries)) (sym same) roots_of, distinct)
