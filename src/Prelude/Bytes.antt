-- ===== src/Prelude/Bytes.antt =====
-- Text as its UTF-8 bytes, and the methods of `str` that the program calls.
use Prim.Native.Nat.{ℕ}
use Prim.Native.Char.{code}
use Prim.Native.String.{String}
use native.Mathlib.Decide.{ℕ_discrete}
use mathlib.Core.Path.{◌≡◌, refl}
use mathlib.Core.Bool.{Bool, true, false, ◌&&◌, ◌||◌}
use mathlib.Core.Option.{Option, none, some}
use mathlib.Core.List.{List, [], ◌∷◌, ◌++◌}
use native.Mathlib.Omega.{arith}
use forward.Prelude.Tests.{leb, ◌==◌, holds, if◌then◌else◌}

abbrev pub Text : Type 0
Text = List ℕ

unfoldable pub Text-discrete : Discrete Text
unfolding ℕ_discrete
Text-discrete = hlevel (ℕ_discrete)

abbrev pub text_eq : Text → Text → Bool
text_eq a b = holds (Text-discrete a b)

-- The bytes of an ASCII literal.
abbrev pub codes : String → Text
codes String.[] = []
codes (String.◌∷◌ c s) = code c ∷ codes s

abbrev pub is_digit : ℕ → Bool
is_digit c = leb 48 c && leb c 57

abbrev pub is_lower : ℕ → Bool
is_lower c = leb 97 c && leb c 122

abbrev pub is_upper : ℕ → Bool
is_upper c = leb 65 c && leb c 90

abbrev pub is_alphabetic : ℕ → Bool
is_alphabetic c = is_lower c || is_upper c

abbrev pub is_alphanumeric : ℕ → Bool
is_alphanumeric c = is_alphabetic c || is_digit c

-- `char::is_ascii_graphic`: from `!` to `~`.
abbrev pub is_graphic : ℕ → Bool
is_graphic c = leb 33 c && leb c 126

abbrev pub all_bytes : (ℕ → Bool) → Text → Bool
all_bytes p [] = true
all_bytes p (c ∷ s) = p c && all_bytes p s

-- `strip_prefix`
abbrev pub strip_prefix : Text → Text → Option Text
strip_prefix [] s = some s
strip_prefix (p ∷ ps) [] = none
strip_prefix (p ∷ ps) (c ∷ s) = if p == c then strip_prefix ps s else none

-- `strip_suffix`: the head is put back before what is left of the tail.
abbrev pub cons_some : ℕ → Option Text → Option Text
cons_some c none = none
cons_some c (some s) = some (c ∷ s)

abbrev pub strip_suffix : Text → Text → Option Text
strip_suffix suffix [] = if text_eq [] suffix then some [] else none
strip_suffix suffix (c ∷ s) =
    let rest = cons_some c (strip_suffix suffix s) in
    if text_eq (c ∷ s) suffix then some [] else rest

abbrev pub cons_first : ℕ → Option (Text × Text) → Option (Text × Text)
cons_first c none = none
cons_first c (some (a, b)) = some (c ∷ a, b)

-- `split_once(c)` at one byte
abbrev pub split_once : ℕ → Text → Option (Text × Text)
split_once d [] = none
split_once d (c ∷ s) =
    let rest = cons_first c (split_once d s) in if c == d then some ([], s) else rest

pub strip_prefix-append : (p s : Text) → strip_prefix p (p ++ s) ≡ some s
strip_prefix-append [] s = refl
strip_prefix-append (c ∷ p) s = ground (arith, strip_prefix-append p s)

pub all_bytes-append :
    (p : ℕ → Bool) (xs ys : Text) → all_bytes p (xs ++ ys) ≡ (all_bytes p xs && all_bytes p ys)
all_bytes-append p [] ys = refl
all_bytes-append p (x ∷ xs) ys = ground (arith, all_bytes-append p xs ys)

-- A separator that the first part lacks is found where it was put.
pub split_once-append :
    (d : ℕ) (xs ys : Text)
    → all_bytes (λ c. if c == d then false else true) xs ≡ true
    → split_once d (xs ++ d ∷ ys) ≡ some (xs, ys)
split_once-append d [] ys h = ground arith
split_once-append d (c ∷ xs) ys h = ground (arith, split_once-append d xs ys)

pub all_bytes_mono :
    (p q : ℕ → Bool) (s : Text)
    → ((c : ℕ) → p c ≡ true → q c ≡ true)
    → all_bytes p s ≡ true
    → all_bytes q s ≡ true
all_bytes_mono p q [] imp h = refl
all_bytes_mono p q (c ∷ s) imp h = ground (arith, imp c, all_bytes_mono p q s imp)
