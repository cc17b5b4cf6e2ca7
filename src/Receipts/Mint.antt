-- ===== src/Receipts/Mint.antt =====
-- What `mint` promises: a fresh receipt that redeems, in a table that stays within its bounds.
use mathlib.Core.Path.{subst}
use forward.Prelude.{
  sym, ap, ◌∙◌, ◌⊎◌, ◌≢◌, ℕ, zero, suc, ◌+◌, ◌≤◌, ◌<◌, ◌≡◌, refl, Bool, false, ◌||◌, Option, none,
  some, List, [], ◌∷◌, ◌++◌, arith, leb, length, length-append, Text, inl, inr, Bool-cases, find,
  count_if, count_if-append, any, All,
}
use forward.Hex.{encode, decode_exact, IsByte, decode_exact-encode}
use forward.Receipts.{
  Entry, ReceiptTable, has_id, sweep, redeem, mint, mint_loop, mint_id, MintResult, receipt,
  unfinished, Entropy, max_receipts, receipt_ttl,
}
use forward.Receipts.Laws.{IsSound, sweep-IsSound, redeem_iff}

abbrev pub minted : List ℕ → Text → ℕ → Entry
minted id cap now = record { id = id; cap = cap; minted = now }

-- What the loop of `mint` leaves: the entries, with no receipt, or one more entry, of a drawn id
-- that no other has.
abbrev pub Minted :
    (ℕ → Option (List ℕ)) → Text → ℕ → ReceiptTable → ReceiptTable × MintResult → Type 0
Minted draw cap now entries result =
    ((result.0 ≡ entries) × ((hex : Text) → result.1 ≢ receipt hex))
    ⊎ ((j : ℕ) × (id : List ℕ) × (draw j ≡ some id)
        × (any (has_id id) entries ≡ false)
        × (result ≡ (entries ++ minted id cap now ∷ [], receipt (encode id))))

module _ (draw : ℕ → Option (List ℕ)) (cap : Text) (now : ℕ) (entries : ReceiptTable) where
  Minted-once :
      (k : ℕ) (o : Option (List ℕ)) (again : ReceiptTable → ReceiptTable × MintResult)
      → draw k ≡ o
      → Minted draw cap now entries (again entries)
      → Minted draw cap now entries (mint_id again cap now o entries)
  unfolding mint_id
  Minted-once k none again d h = inl (refl, λ hex e. cc)
  Minted-once k (some id) again d h = elim (Bool-cases (any (has_id id) entries)) [
    | inl taken ↦ rw (taken, mint_id) h
    | inr fresh ↦ rw (fresh, mint_id) (inr (k, id, d, fresh, refl))
  ]

  Minted-loop :
      (rounds k : ℕ) → Minted draw cap now entries (mint_loop rounds draw k cap now entries)
  unfolding mint_loop
  Minted-loop zero k = inl (refl, λ hex e. cc)
  Minted-loop (suc rounds) k =
      Minted-once k (draw k) (mint_loop rounds draw (k + 1) cap now) refl
        (Minted-loop rounds (k + 1))

-- `mint` sweeps the table; then it leaves it, with no receipt, or adds an entry where there is room.
pub mint-cases :
    (rounds : ℕ) (entropy : Entropy) (cap : Text) (now : ℕ) (table : ReceiptTable)
    → ((mint rounds entropy cap now table).0 ≡ sweep now table)
        × ((hex : Text) → (mint rounds entropy cap now table).1 ≢ receipt hex)
      ⊎ ((length (sweep now table) < 32)
          × Minted entropy.draw cap now (sweep now table) (mint rounds entropy cap now table))
unfolding mint
mint-cases rounds entropy cap now table =
    elim (Bool-cases (leb max_receipts (length (sweep now table)))) [
      | inl full ↦ rw full (inl (refl, λ hex e. cc))
      | inr room ↦ elim (Bool-cases entropy.opens) [
        | inl opened ↦ rw room (
            rw opened
              (inr (ground arith, Minted-loop entropy.draw cap now (sweep now table) rounds 0)))
        | inr shut ↦ rw room (rw shut (inl (refl, λ hex e. cc)))
      ]
    ]

count-any :
    (id : List ℕ) (entries : ReceiptTable)
    → any (has_id id) entries ≡ false
    → count_if (has_id id) entries ≡ 0
count-any id [] h = refl
count-any id (e ∷ entries) h = ground (arith, count-any id entries)

distinct_id :
    (entries : ReceiptTable) (id other : List ℕ) (cap : Text) (now : ℕ)
    → any (has_id id) entries ≡ false
    → count_if (has_id other) entries ≤ 1
    → count_if (has_id other) (entries ++ minted id cap now ∷ []) ≤ 1
distinct_id entries id other cap now fresh h = ground (
  arith,
  count-any id entries fresh,
  count_if-append (has_id other) entries (minted id cap now ∷ []),
)

added-IsSound :
    (entries : ReceiptTable) (id : List ℕ) (cap : Text) (now : ℕ)
    → length entries < 32
    → any (has_id id) entries ≡ false
    → IsSound entries
    → IsSound (entries ++ minted id cap now ∷ [])
added-IsSound entries id cap now room fresh h = record {
  distinct = λ other. distinct_id entries id other cap now fresh (h.distinct other);
  fits = omega (arith, length-append entries (minted id cap now ∷ []));
}

-- A mint, whatever it answers and however many rounds its loop is given, keeps the ids distinct and
-- the table within its 32 entries.
pub mint-IsSound :
    (rounds : ℕ) (entropy : Entropy) (cap : Text) (now : ℕ) (table : ReceiptTable)
    → IsSound table
    → IsSound (mint rounds entropy cap now table).0
mint-IsSound rounds entropy cap now table h = elim (mint-cases rounds entropy cap now table) [
  | inl kept ↦ subst IsSound (sym kept.0) (sweep-IsSound now table h)
  | inr (room, inl kept) ↦ subst IsSound (sym kept.0) (sweep-IsSound now table h)
  | inr (room, inr new) ↦
      subst (λ r. IsSound r.0) (sym new.4)
        (added-IsSound (sweep now table) new.1 cap now room new.3 (sweep-IsSound now table h))
]

or_right : (a b : Bool) → (a || b) ≡ false → b ≡ false
or_right a b h = ground arith

find_added :
    (entries : ReceiptTable) (id : List ℕ) (cap : Text) (now later : ℕ)
    → any (has_id id) entries ≡ false
    → later < now + receipt_ttl
    → find (has_id id) (sweep later (entries ++ minted id cap now ∷ [])) ≡ some (minted id cap now)
unfolding sweep
find_added [] id cap now later fresh h = ground arith
find_added (e ∷ entries) id cap now later fresh h = ground (
  arith,
  find_added entries id cap now later (or_right (has_id id e) (any (has_id id) entries) fresh) h,
)

-- What the device yields is 32 bytes a read.
abbrev pub YieldsBytes : (ℕ → Option (List ℕ)) → Type 0
YieldsBytes draw = (j : ℕ) (id : List ℕ) → draw j ≡ some id → (length id ≡ 32) × All IsByte id

added_redeems :
    (entries : ReceiptTable) (id : List ℕ) (cap : Text) (now later : ℕ)
    → length id ≡ 32
    → All IsByte id
    → later < now + receipt_ttl
    → any (has_id id) entries ≡ false
    → IsSound (entries ++ minted id cap now ∷ [])
    → (redeem (encode id) cap later (entries ++ minted id cap now ∷ [])).1 ≡ some cap
added_redeems entries id cap now later len bytes soon fresh h =
    (redeem_iff (encode id) cap cap later (entries ++ minted id cap now ∷ []) h).1 (
      refl,
      (
        minted id cap now,
        (
          id,
          subst (λ n. decode_exact (encode id) n ≡ some id) len (decode_exact-encode id bytes),
          refl,
          find_added entries id cap now later fresh soon,
        ),
        refl,
      ),
    )

-- A receipt that `mint` answers on a sound table redeems its capability from the table that it left,
-- until a minute later, given that the device yields 32 bytes a read.
pub redeem-mint :
    (rounds : ℕ) (entropy : Entropy) (cap hex : Text) (now later : ℕ) (table : ReceiptTable)
    → YieldsBytes entropy.draw
    → IsSound table
    → later < now + receipt_ttl
    → (mint rounds entropy cap now table).1 ≡ receipt hex
    → (redeem hex cap later (mint rounds entropy cap now table).0).1 ≡ some cap
redeem-mint rounds entropy cap hex now later table bytes h soon answer =
    elim (mint-cases rounds entropy cap now table) [
      | inl kept ↦ absurd (kept.1 hex answer)
      | inr (room, inl kept) ↦ absurd (kept.1 hex answer)
      | inr (room, inr new) ↦
          let (j, id, drawn, fresh, result) = new in
          let named : encode id ≡ hex = cc (sym (ap (λ r. r.1) result) ∙ answer) in
          subst (λ r. (redeem hex cap later r.0).1 ≡ some cap) (sym result)
            (subst
              (λ t. (redeem t cap later (sweep now table ++ minted id cap now ∷ [])).1 ≡ some cap)
              named
              (added_redeems (sweep now table) id cap now later (bytes j id drawn).0
                (bytes j id drawn).1 soon fresh
                (added-IsSound (sweep now table) id cap now room fresh
                  (sweep-IsSound now table h))))
    ]

ends_here :
    (again : ReceiptTable → ReceiptTable × MintResult) (cap : Text) (now : ℕ) (o : Option (List ℕ))
    (entries : ReceiptTable) (id : List ℕ)
    → o ≡ some id
    → any (has_id id) entries ≡ false
    → (mint_id again cap now o entries).1 ≢ unfinished
unfolding mint_id
ends_here again cap now none entries id d fresh = absurd (cc d)
ends_here again cap now (some x) entries id d fresh =
    let free : any (has_id x) entries ≡ false = cc (d, fresh) in rw (free, mint_id) (λ e. cc)

ends_later :
    (again : ReceiptTable → ReceiptTable × MintResult) (cap : Text) (now : ℕ) (o : Option (List ℕ))
    (entries : ReceiptTable)
    → (again entries).1 ≢ unfinished
    → (mint_id again cap now o entries).1 ≢ unfinished
unfolding mint_id
ends_later again cap now none entries h = λ e. cc
ends_later again cap now (some x) entries h = elim (Bool-cases (any (has_id x) entries)) [
  | inl taken ↦ rw (taken, mint_id) h
  | inr free ↦ rw (free, mint_id) (λ e. cc)
]

loop_ends :
    (draw : ℕ → Option (List ℕ)) (cap : Text) (now : ℕ) (entries : ReceiptTable) (id : List ℕ)
    (gap rounds k : ℕ)
    → draw (k + gap) ≡ some id
    → any (has_id id) entries ≡ false
    → gap < rounds
    → (mint_loop rounds draw k cap now entries).1 ≢ unfinished
unfolding mint_loop
loop_ends draw cap now entries id gap zero k d fresh lt = absurd (omega arith)
loop_ends draw cap now entries id zero (suc rounds) k d fresh lt =
    let here : k + 0 ≡ k = omega arith in
    ends_here (mint_loop rounds draw (k + 1) cap now) cap now (draw k) entries id (cc (here, d))
      fresh
loop_ends draw cap now entries id (suc gap) (suc rounds) k d fresh lt =
    let next : k + 1 + gap ≡ k + suc gap = omega arith in
    ends_later (mint_loop rounds draw (k + 1) cap now) cap now (draw k) entries
      (loop_ends draw cap now entries id gap rounds (k + 1) (ap draw next ∙ d) fresh (omega arith))

-- The loop of `mint` ends: where some read of the device yields an id that no receipt left after the
-- sweep has, more rounds than the number of that read are enough for an answer of the code.
pub mint_ends :
    (entropy : Entropy) (cap : Text) (now : ℕ) (table : ReceiptTable) (id : List ℕ) (k rounds : ℕ)
    → entropy.draw k ≡ some id
    → any (has_id id) (sweep now table) ≡ false
    → k < rounds
    → (mint rounds entropy cap now table).1 ≢ unfinished
unfolding mint
mint_ends entropy cap now table id k rounds d fresh lt =
    let start : 0 + k ≡ k = omega arith in
    elim (Bool-cases (leb max_receipts (length (sweep now table)))) [
      | inl full ↦ rw full (λ e. cc)
      | inr room ↦ elim (Bool-cases entropy.opens) [
        | inl opened ↦ rw room (
            rw opened (
              loop_ends entropy.draw cap now (sweep now table) id k rounds 0
                (ap entropy.draw start ∙ d) fresh lt))
        | inr shut ↦ rw room (rw shut (λ e. cc))
      ]
    ]
