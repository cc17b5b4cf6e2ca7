-- ===== src/Receipts/Laws.antt =====
-- A receipt is redeemed once, for its capability, in its time.
use mathlib.Core.Path.{subst}
use forward.Prelude.{
  sym, ◌⊎◌, ◌↔◌, ◌≢◌, ap, ◌∙◌, ℕ, ◌≤◌, ◌≡◌, refl, Bool, Option, none, some, List, arith, length,
  Text, text_eq, get_elem?, inl, inr, Bool-cases, find, count_if, count_if-retain-le,
  length-retain-le,
}
use forward.Hex.{decode_exact}
use forward.Receipts.{
  Entry, ReceiptTable, has_id, is_fresh, sweep, redeem, redeem_at, redeem_decoded, redeem_entry,
  swap_remove, receipt_len,
}
use forward.Receipts.Scan.{
  first_index, scan-first_index, position_of, find-first_index-none, get_elem?-first_index,
}

-- No two outstanding receipts have one id, and there are at most 32.
pub record IsSound (table : ReceiptTable) : Type 0 where
  pub distinct : (id : List ℕ) → count_if (has_id id) table ≤ 1
  pub fits : length table ≤ 32

pub sweep-IsSound : (now : ℕ) (table : ReceiptTable) → IsSound table → IsSound (sweep now table)
unfolding sweep
sweep-IsSound now table h = record {
  distinct =
      λ id. omega (arith, count_if-retain-le (has_id id) (is_fresh now) table, h.distinct id);
  fits = omega (arith, length-retain-le (is_fresh now) table, h.fits);
}

-- The entry that a text names among those that are left after the sweep.
abbrev pub Names : Text → ℕ → ReceiptTable → Entry → Type 0
Names hex now table e =
    (id : List ℕ) × (decode_exact hex receipt_len ≡ some id)
    × (e.id ≡ id)
    × (find (has_id id) (sweep now table) ≡ some e)

abbrev pub Cases : Text → Text → ℕ → ReceiptTable → ReceiptTable × Option Text → Type 0
Cases hex expected now table result =
    ((result ≡ (sweep now table, none)) × ((e : Entry) → Names hex now table e → e.cap ≢ expected))
    ⊎ ((e : Entry) × (i : ℕ) × Names hex now table e
        × (e.cap ≡ expected)
        × (get_elem? (sweep now table) i ≡ some e)
        × (result ≡ (swap_remove i (sweep now table), some expected)))

redeem_steps :
    (hex expected : Text) (now : ℕ) (table : ReceiptTable)
    → redeem hex expected now table
      ≡ redeem_decoded expected (decode_exact hex receipt_len) (sweep now table)
unfolding redeem
redeem_steps hex expected now table = refl

found_steps :
    (expected : Text) (id : List ℕ) (entries : ReceiptTable)
    → length entries ≤ 64
    → redeem_decoded expected (some id) entries
      ≡ redeem_at expected
          (position_of (first_index id entries)).0
          (position_of (first_index id entries)).1
          entries
unfolding redeem_decoded
found_steps expected id entries h =
    ap (λ (r : ℕ × Bool). redeem_at expected r.0 r.1 entries) (scan-first_index id entries h)

module _ (hex expected : Text) (now : ℕ) (table : ReceiptTable) (id : List ℕ)
    (d : decode_exact hex receipt_len ≡ some id) where
  named :
      (o : Option Entry)
      → find (has_id id) (sweep now table) ≡ o
      → (e : Entry) → Names hex now table e
      → o ≡ some e
  named o f e n =
      let same : n.0 ≡ id = cc (n.1, d) in
      sym f ∙ subst (λ x. find (has_id x) (sweep now table) ≡ some e) same n.3

  entry_Cases :
      (i : ℕ) (e : Entry)
      → get_elem? (sweep now table) i ≡ some e
      → e.id ≡ id
      → find (has_id id) (sweep now table) ≡ some e
      → Cases hex expected now table (redeem_entry expected i (some e) (sweep now table))
  unfolding redeem_entry
  entry_Cases i e at is finds = elim (Bool-cases (text_eq e.cap expected)) [
    | inl same ↦
        let cap : e.cap ≡ expected = ground arith in
        inr (
          e,
          i,
          (id, d, is, finds),
          cap,
          at,
          rw same (ap (λ c. (swap_remove i (sweep now table), some c)) cap),
        )
    | inr other ↦ inl (
      rw other refl,
      λ x n. let eq : x ≡ e = cc (named (some e) finds x n) in λ cap. ground (arith, eq),
    )
  ]

  found_Cases :
      (o : Option ℕ)
      → first_index id (sweep now table) ≡ o
      → Cases hex expected now table
          (redeem_at expected (position_of o).0 (position_of o).1 (sweep now table))
  unfolding redeem_at
  found_Cases none f =
      inl (refl, λ e n. absurd (cc (named none (find-first_index-none id (sweep now table) f) e n)))
  found_Cases (some i) f =
      let (e, at, is, finds) = get_elem?-first_index id (sweep now table) i f in
      subst (λ o. Cases hex expected now table (redeem_entry expected i o (sweep now table)))
        (sym at) (entry_Cases i e at is finds)

decoded_Cases :
    (hex expected : Text) (now : ℕ) (table : ReceiptTable)
    → IsSound table
    → (o : Option (List ℕ)) → decode_exact hex receipt_len ≡ o
    → Cases hex expected now table (redeem_decoded expected o (sweep now table))
unfolding redeem_decoded
decoded_Cases hex expected now table h none d = inl (refl, λ e n. absurd (cc (d, n.1)))
decoded_Cases hex expected now table h (some id) d =
    subst (Cases hex expected now table)
      (sym (
        found_steps expected id (sweep now table)
          (omega (arith, (sweep-IsSound now table h).fits))))
      (found_Cases hex expected now table id d (first_index id (sweep now table)) refl)

-- What `redeem` does to a table that fits: nothing more than sweep it, when the text names no entry
-- for the capability, or take out the one entry that it names.
pub redeem-Cases :
    (hex expected : Text) (now : ℕ) (table : ReceiptTable)
    → IsSound table
    → Cases hex expected now table (redeem hex expected now table)
redeem-Cases hex expected now table h =
    subst (Cases hex expected now table) (sym (redeem_steps hex expected now table))
      (decoded_Cases hex expected now table h (decode_exact hex receipt_len) refl)

-- On a sound table, a redemption succeeds exactly when the text is the 32 bytes, in hexadecimal, of a receipt that is
-- outstanding, younger than its minute, and minted for the capability; it answers that capability.
pub redeem_iff :
    (hex expected cap : Text) (now : ℕ) (table : ReceiptTable)
    → IsSound table
    → ((redeem hex expected now table).1 ≡ some cap)
      ↔ ((cap ≡ expected) × ((e : Entry) × Names hex now table e × (e.cap ≡ expected)))
redeem_iff hex expected cap now table h = elim (redeem-Cases hex expected now table h) [
  | inl no_entry ↦ (
    λ ok'. absurd (cc (sym (ap (λ r. r.1) no_entry.0) ∙ ok')),
    λ w. absurd (no_entry.1 w.1.0 w.1.1 w.1.2),
  )
  | inr one ↦ (
    λ ok'. (cc (sym (ap (λ r. r.1) one.5) ∙ ok'), (one.0, one.2, one.3)),
    λ w. ap (λ r. r.1) one.5 ∙ ap some (sym w.0),
  )
]
