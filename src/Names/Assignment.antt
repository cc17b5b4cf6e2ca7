-- ===== src/Names/Assignment.antt =====
-- `parse_single_assignment` of crates/secrets/src/secret.rs: the value of a key in decrypted dotenv
-- text.
use mathlib.Core.Path.{subst, ap₂}
use forward.Prelude.{
  ℕ, ◌≡◌, refl, ap, sym, ◌∙◌, ◌↔◌, Bool, true, false, not, ◌||◌, Option, none, some, List, [], ◌∷◌,
  ◌++◌, arith, ◌==◌, if◌then◌else◌, any, Text, text_eq, all_bytes, strip_suffix, split_once,
  split_once-append, is_some, inl, inr, Bool-cases, Option-cases, retain, map,
}
use forward.ErrCode.{Result, ok, err, internal, ◌>>=◌}

abbrev cons_line : ℕ → List Text → List Text
cons_line c [] = (c ∷ []) ∷ []
cons_line c (line ∷ lines) = (c ∷ line) ∷ lines

-- `plaintext.split(|byte| *byte == b'\n')`
split_lines : Text → List Text
split_lines [] = [] ∷ []
split_lines (c ∷ s) = let rest = split_lines s in if c == 10 then [] ∷ rest else cons_line c rest

-- `line.strip_suffix(b"\r").unwrap_or(line)`
trim_cr : Text → Text
trim_cr line = elim (strip_suffix (13 ∷ []) line) [ none ↦ line | some trimmed ↦ trimmed ]

-- An empty line or a comment.
is_skipped : Text → Bool
is_skipped [] = true
is_skipped (c ∷ line) = c == 35

has_nul : Text → Bool
has_nul value = any (λ c. c == 0) value

take_split : Text → Option Text → Option (Text × Text) → Result (Option Text)
unfolding has_nul
take_split expected found none = err internal
take_split expected found (some (name, value)) =
    if not (text_eq name expected) || is_some found || has_nul value
    then err internal
    else ok (some value)

-- One round of the loop, on the line without its carriage return.
take_line : Text → Option Text → Text → Result (Option Text)
unfolding is_skipped take_split
take_line expected found line =
    if is_skipped line then ok found else take_split expected found (split_once 61 line)

take_lines : Text → Option Text → List Text → Result (Option Text)
unfolding take_line trim_cr
take_lines expected found [] = ok found
take_lines expected found (line ∷ lines) =
    take_line expected found (trim_cr line) >>= λ found'. take_lines expected found' lines

or_internal : Option Text → Result Text
or_internal none = err internal
or_internal (some value) = ok value

unfoldable pub parse_single_assignment : Text → Text → Result Text
unfolding split_lines take_lines or_internal
parse_single_assignment plaintext expected =
    take_lines expected none (split_lines plaintext) >>= or_internal

-- The lines that say something: no empty line and no comment, and without carriage returns.
pub statements : Text → List Text
unfolding is_skipped trim_cr split_lines
statements plaintext = retain (λ line. not (is_skipped line)) (map trim_cr (split_lines plaintext))

split_once_sound : (d : ℕ) (s a b : Text) → split_once d s ≡ some (a, b) → s ≡ a ++ d ∷ b
split_once_sound d [] a b h = cc
split_once_sound d (c ∷ s) a b h = elim (Bool-cases (c == d)) [
  | inl e ↦ ground arith
  | inr e ↦ elim (Option-cases (split_once d s)) [
    | inl n ↦ absurd (ground arith)
    | inr w ↦ ground (arith, w.1, split_once_sound d s w.0.0 w.0.1 w.1)
  ]
]

take_line_skip :
    (expected : Text) (found : Option Text) (line : Text)
    → is_skipped line ≡ true
    → take_line expected found line ≡ ok found
unfolding take_line
take_line_skip expected found line h = rw h

take_line_again :
    (expected v line : Text)
    → is_skipped line ≡ false
    → take_line expected (some v) line ≡ err internal
unfolding take_line
take_line_again expected v line h = ground arith

-- The first statement, when it is accepted, assigns to the expected name a value with no NUL.
take_line_first :
    (expected line : Text) (found : Option Text)
    → is_skipped line ≡ false
    → take_line expected none line ≡ ok found
    → (v : Text) × (found ≡ some v) × (line ≡ expected ++ 61 ∷ v) × (any (λ c. c == 0) v ≡ false)
unfolding take_line
take_line_first expected line found h e = elim (Option-cases (split_once 61 line)) [
  | inl n ↦ absurd (ground arith)
  | inr w ↦ (
    w.0.1,
    ground (arith, w.1),
    split_once_sound 61 line w.0.0 w.0.1 w.1 ∙ ap (λ n. n ++ 61 ∷ w.0.1) (ground (arith, w.1)),
    ground (arith, w.1),
  )
]

take_line_made :
    (expected v : Text)
    → all_bytes (λ c. if c == 61 then false else true) expected ≡ true
    → is_skipped (expected ++ 61 ∷ v) ≡ false
    → any (λ c. c == 0) v ≡ false
    → take_line expected none (expected ++ 61 ∷ v) ≡ ok (some v)
unfolding take_line
take_line_made expected v no_eq h no_nul = ground (arith, split_once-append 61 expected v no_eq)

abbrev kept : List Text → List Text
kept lines = retain (λ line. not (is_skipped line)) (map trim_cr lines)

module _ (expected : Text) where
  rest_sound :
      (v : Text) (lines : List Text) (r : Option Text)
      → take_lines expected (some v) lines ≡ ok r
      → (kept lines ≡ []) × (r ≡ some v)
  unfolding take_lines
  rest_sound v [] r h = (refl, cc)
  rest_sound v (line ∷ lines) r h = elim (Bool-cases (is_skipped (trim_cr line))) [
    | inl skip ↦
        rw skip
          (rest_sound v lines r (rw (take_line_skip expected (some v) (trim_cr line) skip) at h))
    | inr say ↦ absurd (cc (rw (take_line_again expected v (trim_cr line) say) at h))
  ]

  rest_complete :
      (v : Text) (lines : List Text)
      → kept lines ≡ []
      → take_lines expected (some v) lines ≡ ok (some v)
  unfolding take_lines
  rest_complete v [] h = refl
  rest_complete v (line ∷ lines) h = elim (Bool-cases (is_skipped (trim_cr line))) [
    | inl skip ↦
        rw (take_line_skip expected (some v) (trim_cr line) skip)
          (rest_complete v lines (rw skip at h))
    | inr say ↦ absurd (cc (rw say at h))
  ]

  first_sound :
      (lines : List Text) (v : Text)
      → take_lines expected none lines ≡ ok (some v)
      → (kept lines ≡ (expected ++ 61 ∷ v) ∷ []) × (any (λ c. c == 0) v ≡ false)
  unfolding take_lines
  first_sound [] v h = absurd (cc h)
  first_sound (line ∷ lines) v h = elim (Bool-cases (is_skipped (trim_cr line))) [
    | inl skip ↦
        rw skip (first_sound lines v (rw (take_line_skip expected none (trim_cr line) skip) at h))
    | inr say ↦
        let (found, taken, more) = taken_of (take_line expected none (trim_cr line)) h in
        let (w, same, is, no_nul) = take_line_first expected (trim_cr line) found say taken in
        let (over, r) =
          rest_sound w lines (some v)
            (subst (λ f. take_lines expected f lines ≡ ok (some v)) same more) in
        let eq : w ≡ v = cc (sym r) in
        rw say (
          ap₂ (λ (l : Text) (ls : List Text). l ∷ ls) (is ∙ ap (λ u. expected ++ 61 ∷ u) eq) over,
          subst (λ u. any (λ c. c == 0) u ≡ false) eq no_nul,
        )
  ]
    where
      taken_of :
          (m : Result (Option Text))
          → (m >>= λ f. take_lines expected f lines) ≡ ok (some v)
          → (f : Option Text) × (m ≡ ok f) × (take_lines expected f lines ≡ ok (some v))
      taken_of (ok f) e = (f, refl, e)
      taken_of (err x) e = absurd (cc e)

  module _ (no_eq : all_bytes (λ c. if c == 61 then false else true) expected ≡ true) where
    first_complete :
        (lines : List Text) (v : Text)
        → kept lines ≡ (expected ++ 61 ∷ v) ∷ []
        → any (λ c. c == 0) v ≡ false
        → take_lines expected none lines ≡ ok (some v)
    unfolding take_lines
    first_complete [] v h no_nul = absurd (cc h)
    first_complete (line ∷ lines) v h no_nul = elim (Bool-cases (is_skipped (trim_cr line))) [
      | inl skip ↦
          rw (take_line_skip expected none (trim_cr line) skip)
            (first_complete lines v (rw skip at h) no_nul)
      | inr say ↦
          let both : (trim_cr line ≡ expected ++ 61 ∷ v) × (kept lines ≡ []) =
            heads (rw say at h) in
          rw both.0 (
            rw
              (take_line_made expected v no_eq (subst (λ l. is_skipped l ≡ false) both.0 say)
                no_nul)
              (rest_complete v lines both.1))
    ]
      where
        heads :
            trim_cr line ∷ kept lines ≡ (expected ++ 61 ∷ v) ∷ []
            → (trim_cr line ≡ expected ++ 61 ∷ v) × (kept lines ≡ [])
        heads e = (cc e, cc e)

-- For a key with no equals sign in it, the text has the value exactly when its one statement
-- assigns that value to that key, and the value has no NUL.
pub parse_single_assignment_iff :
    (plaintext expected value : Text)
    → all_bytes (λ c. if c == 61 then false else true) expected ≡ true
    → (parse_single_assignment plaintext expected ≡ ok value)
      ↔ ((statements plaintext ≡ (expected ++ 61 ∷ value) ∷ []) × (any (λ c. c == 0) value ≡ false))
unfolding parse_single_assignment statements
parse_single_assignment_iff plaintext expected value no_eq = (
  λ h.
      first_sound expected (split_lines plaintext) value
        (found_of (take_lines expected none (split_lines plaintext)) h),
  λ h. rw (first_complete expected no_eq (split_lines plaintext) value h.0 h.1),
)
  where
    found_of : (m : Result (Option Text)) → (m >>= or_internal) ≡ ok value → m ≡ ok (some value)
    found_of (ok none) e = absurd (cc e)
    found_of (ok (some v)) e = cc e
    found_of (err x) e = absurd (cc e)
