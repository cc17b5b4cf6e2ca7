-- ===== src/Prelude/Splits.antt =====
-- Where a text is split at its first newline.
use Prim.Native.Nat.{ℕ}
use mathlib.Core.Path.{◌≡◌, refl, ap, ◌∙◌}
use mathlib.Core.Logic.{inl, inr}
use mathlib.Core.Bool.{true, false}
use mathlib.Core.Option.{none, some}
use mathlib.Core.List.{[], ◌∷◌, ◌++◌}
use native.Mathlib.Omega.{arith}
use forward.Prelude.Tests.{◌==◌, Bool-cases, Option-cases}
use forward.Prelude.Bytes.{Text, split_once}

pub append_assoc : (a b c : Text) → (a ++ b) ++ c ≡ a ++ (b ++ c)
append_assoc [] b c = refl
append_assoc (x ∷ a) b c = ap (λ t. x ∷ t) (append_assoc a b c)

pub split_step :
    (c : ℕ) (s h p : Text)
    → (c == 10) ≡ false
    → split_once 10 (c ∷ s) ≡ some (h, p)
    → (h' : Text) × (h ≡ c ∷ h') × (split_once 10 s ≡ some (h', p))
split_step c s h p other found = elim (Option-cases (split_once 10 s)) [
  | inl e ↦ absurd (ground arith)
  | inr (r, e) ↦ (r.0, ground arith, ground arith)
]

pub split_head :
    (c : ℕ) (s h p : Text)
    → (c == 10) ≡ true
    → split_once 10 (c ∷ s) ≡ some (h, p)
    → (c ≡ 10) × (h ≡ []) × (p ≡ s)
split_head c s h p e found = (ground arith, ground arith, ground arith)

pub split_missing : (c : ℕ) (s : Text) → split_once 10 (c ∷ s) ≡ none → split_once 10 s ≡ none
split_missing c s missing = elim (Option-cases (split_once 10 s)) [
  | inl e ↦ e
  | inr (r, e) ↦ absurd (ground arith)
]

-- A newline that is found stays where it is when more follows.
pub split-more :
    (a b line rest : Text)
    → split_once 10 a ≡ some (line, rest)
    → split_once 10 (a ++ b) ≡ some (line, rest ++ b)
split-more [] b line rest h = absurd (cc h)
split-more (c ∷ a) b line rest h = elim (Bool-cases (c == 10)) [
  | inl e ↦ ground arith
  | inr e ↦ elim (Option-cases (split_once 10 a)) [
    | inl f ↦ absurd (ground (arith, f))
    | inr (r, f) ↦ let below = split-more a b r.0 r.1 f in ground (arith, f, below)
  ]
]

-- Without one, the newline is further on.
pub split-behind :
    (a b line rest : Text)
    → split_once 10 a ≡ none
    → split_once 10 (a ++ b) ≡ some (line, rest)
    → (line' : Text) × (line ≡ a ++ line') × (split_once 10 b ≡ some (line', rest))
split-behind [] b line rest missing h = (line, refl, h)
split-behind (c ∷ a) b line rest missing h = elim (Bool-cases (c == 10)) [
  | inl e ↦ absurd (ground arith)
  | inr e ↦
      let (l, is_l, found) = split_step c (a ++ b) line rest e h in
      let (line', is_line, found') = split-behind a b l rest (split_missing c a missing) found in
      (line', is_l ∙ ap (λ t. c ∷ t) is_line, found')
]
