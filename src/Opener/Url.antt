-- ===== src/Opener/Url.antt =====
-- A parsed URL of the `url` crate, by what its methods answer, and the methods of `str` that the link
-- opener calls on its parts (crates/forward/src/policy.rs, localhost.rs).
use forward.Prelude.{ℕ, ◌+◌, Option, none, some, List, [], ◌∷◌, ◌==◌, if◌then◌else◌, Text, is_upper}

-- `port` leaves out the default port of the scheme, which `port_or_known_default` puts in.
-- `query_pairs` are decoded.
pub record Url : Type 0 where
  pub host_str : Option Text
  pub port : Option ℕ
  pub port_or_known_default : Option ℕ
  pub path : Text
  pub query_pairs : List (Text × Text)

abbrev to_lower : ℕ → ℕ
to_lower c = if is_upper c then c + 32 else c

-- `to_ascii_lowercase`
abbrev pub to_ascii_lowercase : Text → Text
to_ascii_lowercase [] = []
to_ascii_lowercase (c ∷ s) = to_lower c ∷ to_ascii_lowercase s

abbrev pub cons_part : ℕ → List Text → List Text
cons_part c [] = (c ∷ []) ∷ []
cons_part c (part ∷ parts) = (c ∷ part) ∷ parts

-- `split(d)`: there is always a first part.
abbrev pub split_on : ℕ → Text → List Text
split_on d [] = [] ∷ []
split_on d (c ∷ s) = let parts = split_on d s in if c == d then [] ∷ parts else cons_part c parts

abbrev pub cons_front : ℕ → Option (Text × Text) → Option (Text × Text)
cons_front c none = none
cons_front c (some (a, b)) = some (c ∷ a, b)

abbrev or_here : Text → Option (Text × Text) → Option (Text × Text)
or_here s none = some ([], s)
or_here s (some parts) = some parts

-- `rsplit_once(d)`: at the last one.
abbrev pub rsplit_once : ℕ → Text → Option (Text × Text)
rsplit_once d [] = none
rsplit_once d (c ∷ s) =
    let behind = cons_front c (rsplit_once d s) in if c == d then or_here s behind else behind

-- A text with one byte more at its front, less the bytes `d` at its end.
abbrev pub cons_trimmed : ℕ → ℕ → Text → Text
cons_trimmed d c [] = if c == d then [] else c ∷ []
cons_trimmed d c (x ∷ s) = c ∷ x ∷ s

-- `trim_end_matches(d)`
abbrev pub trim_end_matches : ℕ → Text → Text
trim_end_matches d [] = []
trim_end_matches d (c ∷ s) = cons_trimmed d c (trim_end_matches d s)
