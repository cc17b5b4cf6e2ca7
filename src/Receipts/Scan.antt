-- ===== src/Receipts/Scan.antt =====
-- The scan of `redeem` masks instead of branching. It finds what a search finds.
use forward.Prelude.{
  ℕ, zero, suc, ◌+◌, ◌≤◌, ◌<◌, ◌≡◌, refl, ap, ◌∙◌, Bool, true, false, ◌&&◌, Option, none, some,
  List, [], ◌∷◌, arith, ◌==◌, if◌then◌else◌, length, text_eq, get_elem?, inl, inr, Bool-cases, find,
  count_if,
}
use forward.Receipts.{
  Entry, has_id, select, scan, swap_remove, last_or, all_but_last, last_to_front,
}

-- Whether a test passes at each index of a table of 64 slots, of which `left` are still to be tried.
passes : (ℕ → Bool) → ℕ → Bool
passes test zero = true
passes test (suc left) = passes test left && test left

passes_at :
    (test : ℕ → Bool) (left slot : ℕ) → slot < left → passes test left ≡ true → test slot ≡ true
unfolding passes
passes_at test zero slot below ok' = absurd (omega arith)
passes_at test (suc left) slot below ok' = ground (arith, passes_at test left slot)

eq_of : (a b : ℕ) → (a == b) ≡ true → a ≡ b
eq_of a b h = ground arith

table_kept : passes (λ i. passes (λ p. select false p i == p) 64) 64 ≡ true
unfolding passes select
table_kept = refl

table_taken : passes (λ i. passes (λ p. select true p i == i) 64) 64 ≡ true
unfolding passes select
table_taken = refl

select-false : (p i : ℕ) → p < 64 → i < 64 → select false p i ≡ p
select-false p i hp hi =
    let row = passes_at (λ j. passes (λ q. select false q j == q) 64) 64 i hi table_kept in
    eq_of (select false p i) p (passes_at (λ q. select false q i == q) 64 p hp row)

select-true : (p i : ℕ) → p < 64 → i < 64 → select true p i ≡ i
select-true p i hp hi =
    let row = passes_at (λ j. passes (λ q. select true q j == j) 64) 64 i hi table_taken in
    eq_of (select true p i) i (passes_at (λ q. select true q i == i) 64 p hp row)

abbrev pub bump : Option ℕ → Option ℕ
bump none = none
bump (some i) = some (suc i)

-- The position of the first entry with an id.
abbrev pub first_index : List ℕ → List Entry → Option ℕ
first_index id [] = none
first_index id (entry ∷ entries) =
    let rest = bump (first_index id entries) in if text_eq entry.id id then some 0 else rest

abbrev scanned : ℕ → ℕ → Option ℕ → ℕ × Bool
scanned index position none = (position, false)
scanned index position (some i) = (index + i, true)

module _ (id : List ℕ) where
  scan_found :
      (entries : List Entry) (index position : ℕ)
      → position < 64
      → index + length entries ≤ 64
      → scan id index position true entries ≡ (position, true)
  unfolding scan
  scan_found [] index position hp hi = refl
  scan_found (e ∷ entries) index position hp hi = elim (Bool-cases (text_eq e.id id)) [
    | inl m ↦ rw m (
        rw (select-false position index hp (omega arith))
          (scan_found entries (index + 1) position hp (omega arith)))
    | inr m ↦ rw m (
        rw (select-false position index hp (omega arith))
          (scan_found entries (index + 1) position hp (omega arith)))
  ]

  scan_search :
      (entries : List Entry) (index position : ℕ)
      → position < 64
      → index + length entries ≤ 64
      → scan id index position false entries ≡ scanned index position (first_index id entries)
  unfolding scan
  scan_search [] index position hp hi = refl
  scan_search (e ∷ entries) index position hp hi = elim (Bool-cases (text_eq e.id id)) [
    | inl m ↦ rw m (
        rw (select-true position index hp (omega arith)) (
          scan_found entries (index + 1) index (omega arith) (omega arith)
          ∙ ap (λ i. (i, true)) (omega arith)))
    | inr m ↦ rw m (
        rw (select-false position index hp (omega arith)) (
          scan_search entries (index + 1) position hp (omega arith)
          ∙ next (first_index id entries)))
  ]
    where
      next : (o : Option ℕ) → scanned (index + 1) position o ≡ scanned index position (bump o)
      next none = refl
      next (some i) = ap (λ j. (j, true)) (omega arith)

abbrev pub position_of : Option ℕ → ℕ × Bool
position_of none = (0, false)
position_of (some i) = (i, true)

-- The masked scan of a table of at most 64 entries finds the first entry with the id presented, or nothing.
pub scan-first_index :
    (id : List ℕ) (entries : List Entry)
    → length entries ≤ 64
    → scan id 0 0 false entries ≡ position_of (first_index id entries)
scan-first_index id entries h =
    scan_search id entries 0 0 (omega arith) (omega (arith, h)) ∙ at_zero (first_index id entries)
  where
    at_zero : (o : Option ℕ) → scanned 0 0 o ≡ position_of o
    at_zero none = refl
    at_zero (some i) = ap (λ j. (j, true)) (omega arith)

pub find-first_index-none :
    (id : List ℕ) (entries : List Entry)
    → first_index id entries ≡ none
    → find (has_id id) entries ≡ none
find-first_index-none id [] h = refl
find-first_index-none id (e ∷ entries) h = elim (Bool-cases (text_eq e.id id)) [
  | inl m ↦ absurd (cc (rw m at h))
  | inr m ↦ rw m (find-first_index-none id entries (less (first_index id entries) (rw m at h)))
]
  where
    less : (o : Option ℕ) → bump o ≡ none → o ≡ none
    less none e' = refl
    less (some k) e' = absurd (cc e')

-- What the first index of an id points at.
pub get_elem?-first_index :
    (id : List ℕ) (entries : List Entry) (i : ℕ)
    → first_index id entries ≡ some i
    → (e : Entry) × (get_elem? entries i ≡ some e)
      × (e.id ≡ id)
      × (find (has_id id) entries ≡ some e)
get_elem?-first_index id [] i h = absurd (cc h)
get_elem?-first_index id (e ∷ entries) i h = elim (Bool-cases (text_eq e.id id)) [
  | inl m ↦ (e, rw (zero_of m) refl, ground arith, rw m)
  | inr m ↦
      let (j, found, same) = more (first_index id entries) (rw m at h) in
      let (x, at, is, finds) = get_elem?-first_index id entries j found in
      (x, rw same at, is, rw m finds)
]
  where
    zero_of : text_eq e.id id ≡ true → i ≡ 0
    zero_of m = ground arith

    more : (o : Option ℕ) → bump o ≡ some i → (k : ℕ) × (o ≡ some k) × (i ≡ suc k)
    more none e' = absurd (cc e')
    more (some k) e' = (k, refl, cc e')

-- `swap_remove` moves one entry: it takes the removed one out of every count, and changes no other.
count-all_but_last :
    (p : Entry → Bool) (x : Entry) (xs : List Entry)
    → count_if p (all_but_last x xs) + count_if p (last_or x xs ∷ []) ≡ count_if p (x ∷ xs)
count-all_but_last p x [] = omega arith
count-all_but_last p x (y ∷ ys) = ground (arith, count-all_but_last p y ys)

count-last_to_front :
    (p : Entry → Bool) (xs : List Entry) → count_if p (last_to_front xs) ≡ count_if p xs
count-last_to_front p [] = refl
count-last_to_front p (x ∷ xs) = ground (arith, count-all_but_last p x xs)

pub count-swap_remove :
    (p : Entry → Bool) (entries : List Entry) (i : ℕ) (e : Entry)
    → get_elem? entries i ≡ some e
    → count_if p (swap_remove i entries) + count_if p (e ∷ []) ≡ count_if p entries
unfolding swap_remove
count-swap_remove p [] i e h = absurd (cc h)
count-swap_remove p (x ∷ xs) zero e h = ground (arith, count-last_to_front p xs)
count-swap_remove p (x ∷ xs) (suc i) e h = ground (arith, count-swap_remove p xs i e h)
