-- ===== src/Protocol/Events.antt =====
-- The authority events that a subscriber reads: crates/proto/src/lib.rs. The decimal number of an
-- epoch is `format!`'s, an argument here.
use forward.Prelude.{
  ℕ, ◌≡◌, refl, ap, ◌∙◌, Bool, true, false, ◌&&◌, Option, none, some, [], ◌∷◌, ◌++◌, arith,
  if◌then◌else◌, Text, codes, all_bytes, is_digit, is_graphic, strip_prefix, strip_suffix,
  cons_first, u64_max, strip_prefix-append,
}
use forward.Names.Laws.{strip_suffix-append}
use forward.Protocol.Numbers.{parse_unsigned}

-- ` instance=`
abbrev pub instance_mark : Text
instance_mark = codes " instance="

abbrev pub epoch_mark : Text
epoch_mark = codes "EPOCH "

unfoldable pub authority_event : (ℕ → Text) → Text → ℕ → Text
authority_event decimal instance_id epoch =
    epoch_mark ++ (decimal epoch ++ (instance_mark ++ (instance_id ++ 10 ∷ [])))

-- What is here, before what is found further on.
abbrev pub split_here : ℕ → Option (Text × Text) → Option Text → Option (Text × Text)
split_here c rest none = cons_first c rest
split_here c rest (some after) = some ([], after)

-- `split_once` at a text
abbrev pub split_text : Text → Text → Option (Text × Text)
split_text mark [] = elim (strip_prefix mark []) [ none ↦ none | some after ↦ some ([], after) ]
split_text mark (c ∷ s) = split_here c (split_text mark s) (strip_prefix mark (c ∷ s))

abbrev pub is_filled : (ℕ → Bool) → Text → Bool
is_filled p [] = false
is_filled p (c ∷ s) = all_bytes p (c ∷ s)

unfoldable pub with_epoch : Text → Option ℕ → Option (Text × ℕ)
with_epoch instance_id none = none
with_epoch instance_id (some epoch) = some (instance_id, epoch)

unfoldable pub parse_instance : Text → Option Text → Option (Text × ℕ)
parse_instance epoch none = none
parse_instance epoch (some instance_id) =
    if is_filled is_digit epoch && is_filled is_graphic instance_id
    then with_epoch instance_id (parse_unsigned u64_max epoch)
    else none

unfoldable pub parse_marked : Option (Text × Text) → Option (Text × ℕ)
parse_marked none = none
parse_marked (some (epoch, rest)) = parse_instance epoch (strip_suffix (10 ∷ []) rest)

unfoldable pub parse_body : Option Text → Option (Text × ℕ)
parse_body none = none
parse_body (some body) = parse_marked (split_text instance_mark body)

unfoldable pub parse_authority_event : Text → Option (Text × ℕ)
parse_authority_event line = parse_body (strip_prefix epoch_mark line)

filled_all : (p : ℕ → Bool) (s : Text) → is_filled p s ≡ true → all_bytes p s ≡ true
filled_all p [] h = refl
filled_all p (c ∷ s) h = h

split_text-digits :
    (xs ys : Text)
    → all_bytes is_digit xs ≡ true
    → split_text instance_mark (xs ++ (instance_mark ++ ys)) ≡ some (xs, ys)
split_text-digits [] ys h = refl
split_text-digits (c ∷ xs) ys h =
    let other : strip_prefix instance_mark (c ∷ xs ++ (instance_mark ++ ys)) ≡ none =
      ground arith in
    rw other (rw (split_text-digits xs ys (ground arith)) refl)

-- A subscriber reads an authority event back as the instance and the epoch that were announced, where
-- the instance's id is not empty and holds graphic characters only, and the decimal text of the
-- epoch is digits, not empty, from which the epoch is read.
pub parse_authority_event-authority_event :
    (decimal : ℕ → Text) (instance_id : Text) (epoch : ℕ)
    → is_filled is_graphic instance_id ≡ true
    → is_filled is_digit (decimal epoch) ≡ true
    → parse_unsigned u64_max (decimal epoch) ≡ some epoch
    → parse_authority_event (authority_event decimal instance_id epoch) ≡ some (instance_id, epoch)
unfolding parse_authority_event authority_event parse_body parse_marked parse_instance with_epoch
parse_authority_event-authority_event decimal instance_id epoch graphic digits number =
    let rest = instance_id ++ 10 ∷ [] in
    ap parse_body (strip_prefix-append epoch_mark (decimal epoch ++ (instance_mark ++ rest)))
    ∙ ap parse_marked
        (split_text-digits (decimal epoch) rest (filled_all is_digit (decimal epoch) digits))
    ∙ ap (λ o. parse_instance (decimal epoch) o) (strip_suffix-append (10 ∷ []) instance_id)
    ∙ read_back
  where
    read_back : parse_instance (decimal epoch) (some instance_id) ≡ some (instance_id, epoch)
    read_back = rw (digits, graphic, number) refl
