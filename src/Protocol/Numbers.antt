-- ===== src/Protocol/Numbers.antt =====
-- Numbers on the wire: `str::parse` for the integers, and `parse_ttl` of crates/proto/src/lib.rs.
use forward.Prelude.{
  ℕ, zero, suc, ◌+◌, ◌-◌, ◌*◌, ◌≤◌, ◌≡◌, refl, Bool, ◌&&◌, Option, none, some, [], ◌∷◌, arith, ltb,
  leb, ◌==◌, if◌then◌else◌, Text, is_digit, all_bytes, u64_max, Bool-cases, inl, inr,
}

-- The library's ℤ, over the native ℕ.
pub data ℤ : Type 0 where
  pos negsuc : ℕ → ℤ

-- The value of some digits, after a value that was read before them.
abbrev pub digits_from : ℕ → Text → ℕ
digits_from acc [] = acc
digits_from acc (c ∷ s) = digits_from (10 * acc + (c - 48)) s

unfoldable pub parse_digits : ℕ → Text → Option ℕ
parse_digits max [] = none
parse_digits max (c ∷ s) =
    if all_bytes is_digit (c ∷ s) && leb (digits_from 0 (c ∷ s)) max
    then some (digits_from 0 (c ∷ s))
    else none

-- `parse` for an unsigned type whose largest number is `max`: one leading `+` is let through.
unfoldable pub parse_unsigned : ℕ → Text → Option ℕ
parse_unsigned max [] = none
parse_unsigned max (c ∷ s) = if c == 43 then parse_digits max s else parse_digits max (c ∷ s)

negative : Option ℕ → Option ℤ
negative none = none
negative (some zero) = some (pos 0)
negative (some (suc n)) = some (negsuc n)

positive : Option ℕ → Option ℤ
positive none = none
positive (some n) = some (pos n)

-- `parse::<i32>`
unfoldable pub parse_i32 : Text → Option ℤ
unfolding negative positive
parse_i32 [] = none
parse_i32 (c ∷ s) =
    if c == 45
    then negative (parse_digits 2147483648 s)
    else positive (parse_unsigned 2147483647 (c ∷ s))

abbrev pub u32_max : ℕ
u32_max = 4294967295

-- `u64::checked_mul`
abbrev pub checked_mul : ℕ → ℕ → Option ℕ
checked_mul a b = if leb (a * b) u64_max then some (a * b) else none

-- All but the last byte, and the last: `split_at(len - 1)`.
abbrev pub split_last : ℕ → Text → Text × ℕ
split_last c [] = ([], c)
split_last c (d ∷ s) = let (front, last) = split_last d s in (c ∷ front, last)

abbrev pub multiplier : ℕ → Option ℕ
multiplier unit =
    if unit == 115
    then some 1
    else if unit == 109
    then some 60
    else if unit == 104
    then some 3600
    else none

above_zero : Option ℕ → Option ℕ
above_zero none = none
above_zero (some zero) = none
above_zero (some (suc n)) = some (suc n)

scaled : Option ℕ → Option ℕ → Option ℕ
scaled none m = none
scaled (some n) none = none
scaled (some n) (some m) = checked_mul n m

-- `is_ascii`
abbrev pub is_ascii : Text → Bool
is_ascii = all_bytes (λ c. ltb c 128)

unfoldable pub parse_ttl : Text → Option ℕ
unfolding above_zero scaled
parse_ttl [] = none
parse_ttl (c ∷ []) = none
parse_ttl (c ∷ d ∷ s) =
    if is_ascii (c ∷ d ∷ s)
    then (let (number, unit) = split_last c (d ∷ s) in
        above_zero (scaled (parse_unsigned u64_max number) (multiplier unit)))
    else none

above_zero-some : (o : Option ℕ) (t : ℕ) → above_zero o ≡ some t → (1 ≤ t) × (o ≡ some t)
unfolding above_zero
above_zero-some none t h = absurd (cc h)
above_zero-some (some zero) t h = absurd (cc h)
above_zero-some (some (suc x)) t h = (ground arith, h)

scaled-some :
    (o m : Option ℕ) (x : ℕ)
    → scaled o m ≡ some x
    → (x ≤ u64_max) × (n : ℕ) × (unit : ℕ) × (o ≡ some n) × (m ≡ some unit) × (x ≡ n * unit)
unfolding scaled
scaled-some none m x h = absurd (cc h)
scaled-some (some n) none x h = absurd (cc h)
scaled-some (some n) (some m) x h = (ground arith, n, m, refl, refl, ground arith)

-- A lifetime that `parse_ttl` accepts is at least a second and fits 64 bits. It is the number that
-- stands before the last byte, times the seconds of the unit that the last byte names.
pub parse_ttl-bounds :
    (c d : ℕ) (s : Text) (t : ℕ)
    → parse_ttl (c ∷ d ∷ s) ≡ some t
    → (1 ≤ t)
      × (t ≤ u64_max)
      × (n : ℕ) × (unit : ℕ) × (parse_unsigned u64_max (split_last c (d ∷ s)).0 ≡ some n)
      × (multiplier (split_last c (d ∷ s)).1 ≡ some unit)
      × (t ≡ n * unit)
unfolding parse_ttl
parse_ttl-bounds c d s t h = elim (Bool-cases (is_ascii (c ∷ d ∷ s))) [
  | inl ascii ↦
      let scale =
        scaled (parse_unsigned u64_max (split_last c (d ∷ s)).0)
          (multiplier (split_last c (d ∷ s)).1) in
      let (above, got) = above_zero-some scale t (ground arith) in
      let (fits, n, unit, is_n, is_unit, product) =
        scaled-some (parse_unsigned u64_max (split_last c (d ∷ s)).0)
          (multiplier (split_last c (d ∷ s)).1) t got in
      (above, fits, n, unit, is_n, is_unit, product)
  | inr other ↦ absurd (ground arith)
]
