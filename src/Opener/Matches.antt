-- ===== src/Opener/Matches.antt =====
-- The allowlist of crates/forward/src/policy.rs against a description of what a pattern matches.
use forward.Prelude.{
  ℕ, ◌≡◌, refl, sym, ap, ◌∙◌, ◌⊎◌, ◌↔◌, Bool, true, ◌||◌, Option, none, some, List, [], ◌∷◌, ◌++◌,
  ◌==◌, arith, Text, text_eq, split_once, strip_prefix, is_some, Bool-cases, Option-cases, inl, inr,
  strip_prefix-append,
}
use mathlib.Core.Path.{subst}
use forward.Opener.Url.{Url, to_ascii_lowercase, split_on, trim_end_matches}
use forward.Opener.Policy.{
  split_host_and_port, normalize_loopback_alias, match_labels, match_host, is_empty, match_path,
  pattern_parts, match_port, match_known_host, match_parts, allow_matches,
}

-- A label of a pattern is `*` or the label of the host itself, one for one.
pub data LabelsMatch : List Text → List Text → Type 0 where
  ended : LabelsMatch [] []
  wild : {h : Text} {ps hs : List Text} → LabelsMatch ps hs → LabelsMatch ((42 ∷ []) ∷ ps) (h ∷ hs)
  same : {h : Text} {ps hs : List Text} → LabelsMatch ps hs → LabelsMatch (h ∷ ps) (h ∷ hs)

-- A path is the prefix, or goes on from it with a slash.
pub data PathMatches (trimmed path : Text) : Type 0 where
  whole : trimmed ≡ [] → PathMatches trimmed path
  exact : path ≡ 47 ∷ trimmed → PathMatches trimmed path
  below : (rest : Text) → path ≡ ((47 ∷ trimmed) ++ 47 ∷ []) ++ rest → PathMatches trimmed path

pub data PortMatches (url : Url) : Option ℕ → Type 0 where
  any_port : PortMatches url none
  this_port : {port : ℕ} → url.port_or_known_default ≡ some port → PortMatches url (some port)

labels_sound : (ps hs : List Text) → match_labels ps hs ≡ true → LabelsMatch ps hs
unfolding match_labels
labels_sound [] [] h = ended
labels_sound [] (x ∷ hs) h = absurd (cc h)
labels_sound (p ∷ ps) [] h = absurd (cc h)
labels_sound (p ∷ ps) (x ∷ hs) h = elim (Bool-cases (text_eq p (42 ∷ []))) [
  | inl e ↦
      let star : p ≡ 42 ∷ [] = ground arith in
      let rest : match_labels ps hs ≡ true = ground arith in
      subst (λ q. LabelsMatch (q ∷ ps) (x ∷ hs)) (sym star) (wild (labels_sound ps hs rest))
  | inr e ↦ elim (Bool-cases (text_eq p x)) [
    | inl f ↦
        let equal : p ≡ x = ground arith in
        let rest : match_labels ps hs ≡ true = ground arith in
        subst (λ q. LabelsMatch (q ∷ ps) (x ∷ hs)) (sym equal) (same (labels_sound ps hs rest))
    | inr f ↦ absurd (ground arith)
  ]
]

labels_complete : (ps hs : List Text) → LabelsMatch ps hs → match_labels ps hs ≡ true
unfolding match_labels
labels_complete [] [] ended = refl
labels_complete [] (x ∷ hs) m = elim m [ ]
labels_complete (p ∷ ps) [] m = elim m [ ]
labels_complete (p ∷ ps) (x ∷ hs) (wild m) = ground (arith, labels_complete ps hs m)
labels_complete (p ∷ ps) (x ∷ hs) (same m) = ground (arith, labels_complete ps hs m)

strip_sound : (p s r : Text) → strip_prefix p s ≡ some r → s ≡ p ++ r
strip_sound [] s r h = cc h
strip_sound (c ∷ p) [] r h = absurd (cc h)
strip_sound (c ∷ p) (d ∷ s) r h = elim (Bool-cases (c == d)) [
  | inl e ↦
      let rest : strip_prefix p s ≡ some r = ground arith in
      let equal : d ≡ c = ground arith in
      ap (λ x. x ∷ s) equal ∙ ap (λ t. c ∷ t) (strip_sound p s r rest)
  | inr e ↦ absurd (ground arith)
]

empty_lem : (s : Text) → is_empty s ≡ true → s ≡ []
empty_lem [] h = refl
empty_lem (c ∷ s) h = absurd (cc h)

or_true : (a b c : Bool) → (b ≡ true) ⊎ (c ≡ true) → (a || b || c) ≡ true
or_true a b c (inl h) = ground arith
or_true a b c (inr h) = ground arith

path_sound :
    (prefix path : Text)
    → match_path prefix path ≡ true
    → PathMatches (trim_end_matches 47 prefix) path
unfolding match_path
path_sound prefix path h = elim (Bool-cases (is_empty (trim_end_matches 47 prefix))) [
  | inl e ↦ whole (empty_lem (trim_end_matches 47 prefix) e)
  | inr e ↦ elim (Bool-cases (text_eq path (47 ∷ trim_end_matches 47 prefix))) [
    | inl f ↦ exact (ground arith)
    | inr f ↦
        elim (Option-cases (strip_prefix ((47 ∷ trim_end_matches 47 prefix) ++ 47 ∷ []) path)) [
          | inl g ↦ absurd (ground (arith, g))
          | inr (r, g) ↦
              below r (strip_sound ((47 ∷ trim_end_matches 47 prefix) ++ 47 ∷ []) path r g)
        ]
  ]
]

path_complete :
    (prefix path : Text)
    → PathMatches (trim_end_matches 47 prefix) path
    → match_path prefix path ≡ true
unfolding match_path
path_complete prefix path (whole e) = rw e refl
path_complete prefix path (exact e) =
    let equal : text_eq path (47 ∷ trim_end_matches 47 prefix) ≡ true = ground arith in
    or_true (is_empty (trim_end_matches 47 prefix)) _ _ (inl equal)
path_complete prefix path (below rest e) =
    or_true (is_empty (trim_end_matches 47 prefix)) (text_eq path (47 ∷ trim_end_matches 47 prefix))
      _
      (inr (
        ap (λ t. is_some (strip_prefix ((47 ∷ trim_end_matches 47 prefix) ++ 47 ∷ []) t)) e
        ∙ ap is_some (strip_prefix-append ((47 ∷ trim_end_matches 47 prefix) ++ 47 ∷ []) rest)))

-- What a pattern matches: its port, if it names one, is the URL's effective port; the URL has a host,
-- whose labels match those of the pattern's host one for one, both in lower case and with the loopback
-- addresses spelled `localhost`; and its path is the prefix or below it, slashes at the prefix's end
-- aside.
pub data Allows (pattern : Text) (url : Url) : Type 0 where
  allows :
      {host : Text}
      → url.host_str ≡ some host
      → PortMatches url (split_host_and_port (pattern_parts pattern (split_once 47 pattern)).0).1
      → LabelsMatch
          (split_on 46 (
            normalize_loopback_alias (
              to_ascii_lowercase
                (split_host_and_port (pattern_parts pattern (split_once 47 pattern)).0).0)))
          (split_on 46 (normalize_loopback_alias (to_ascii_lowercase host)))
      → PathMatches (trim_end_matches 47 (pattern_parts pattern (split_once 47 pattern)).1) url.path
      → Allows pattern url

port_sound : (o : Option ℕ) (url : Url) → match_port o url ≡ true → PortMatches url o
unfolding match_port
port_sound none url h = any_port
port_sound (some port) url h = elim (Option-cases url.port_or_known_default) [
  | inl e ↦ absurd (ground (arith, e))
  | inr (p, e) ↦ this_port (ground (arith, e))
]

port_complete : (o : Option ℕ) (url : Url) → PortMatches url o → match_port o url ≡ true
unfolding match_port
port_complete none url m = refl
port_complete (some port) url (this_port e) = rw e (ground arith)

module _ (pattern : Text) (url : Url) where
  abbrev parts : Text × Text
  parts = pattern_parts pattern (split_once 47 pattern)

  abbrev host_parts : Text × Option ℕ
  host_parts = split_host_and_port parts.0

  matches_soundly : allow_matches pattern url ≡ true → Allows pattern url
  unfolding allow_matches match_parts match_known_host match_host
  matches_soundly h = elim (Bool-cases (match_port host_parts.1 url)) [
    | inl p ↦ elim (Option-cases url.host_str) [
      | inl e ↦ absurd (ground (arith, e))
      | inr (host, e) ↦ elim (Bool-cases (match_host host_parts.0 host)) [
        | inl m ↦
            allows e (port_sound host_parts.1 url p) (labels_sound _ _ m)
              (path_sound parts.1 url.path (ground (arith, e)))
        | inr m ↦ absurd (ground (arith, e))
      ]
    ]
    | inr p ↦ absurd (ground arith)
  ]

  matches_completely : Allows pattern url → allow_matches pattern url ≡ true
  unfolding allow_matches match_parts match_known_host match_host
  matches_completely (allows e port labels path) =
      rw
        (
          port_complete host_parts.1 url port,
          e,
          labels_complete _ _ labels,
          path_complete parts.1 url.path path,
        )
        refl

  -- The allowlist's test answers yes exactly for the URLs that the pattern matches as described.
  pub allow_matches_iff : (allow_matches pattern url ≡ true) ↔ Allows pattern url
  allow_matches_iff = (matches_soundly, matches_completely)
