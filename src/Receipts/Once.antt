-- ===== src/Receipts/Once.antt =====
-- A redemption takes its receipt out of the table, for good.
use mathlib.Core.Path.{subst}
use forward.Prelude.{
  sym, ap, ◌∙◌, ℕ, ◌≤◌, ◌≡◌, refl, Bool, true, none, some, List, [], ◌∷◌, arith, length, Text,
  get_elem?, inl, inr, Bool-cases, find, find-eq-some, count_if, count_if-retain-le,
}
use forward.Hex.{decode_exact}
use forward.Receipts.{
  Entry, ReceiptTable, has_id, is_fresh, sweep, redeem, swap_remove, receipt_len,
}
use forward.Receipts.Scan.{count-swap_remove}
use forward.Receipts.Laws.{IsSound, sweep-IsSound, redeem-Cases}

length_count : (entries : ReceiptTable) → count_if (λ e. true) entries ≡ length entries
length_count [] = refl
length_count (x ∷ xs) = ground (arith, length_count xs)

swap_remove-IsSound :
    (entries : ReceiptTable) (i : ℕ) (e : Entry)
    → get_elem? entries i ≡ some e
    → IsSound entries
    → IsSound (swap_remove i entries)
swap_remove-IsSound entries i e at h = record {
  distinct = λ id. omega (arith, count-swap_remove (has_id id) entries i e at, h.distinct id);
  fits = omega (
    arith,
    count-swap_remove (λ x. true) entries i e at,
    length_count entries,
    length_count (swap_remove i entries),
    h.fits,
  );
}

-- A redemption, whatever its outcome, keeps the ids distinct and the table within its 32 entries.
pub redeem-IsSound :
    (hex expected : Text) (now : ℕ) (table : ReceiptTable)
    → IsSound table
    → IsSound (redeem hex expected now table).0
redeem-IsSound hex expected now table h = elim (redeem-Cases hex expected now table h) [
  | inl none_left ↦ subst (λ r. IsSound r.0) (sym none_left.0) (sweep-IsSound now table h)
  | inr one ↦
      subst (λ r. IsSound r.0) (sym one.5)
        (swap_remove-IsSound (sweep now table) one.1 one.0 one.4 (sweep-IsSound now table h))
]

find-count :
    (p : Entry → Bool) (xs : ReceiptTable) (e : Entry) → find p xs ≡ some e → 1 ≤ count_if p xs
find-count p [] e h = absurd (cc h)
find-count p (x ∷ xs) e h = elim (Bool-cases (p x)) [
  | inl hit ↦ ground (arith, hit)
  | inr miss ↦ ground (arith, miss, find-count p xs e)
]

count-one : (id : List ℕ) (e : Entry) → has_id id e ≡ true → count_if (has_id id) (e ∷ []) ≡ 1
count-one id e is = ground (arith, is)

gone :
    (id : List ℕ) (entries : ReceiptTable) (i : ℕ) (e : Entry)
    → get_elem? entries i ≡ some e
    → has_id id e ≡ true
    → IsSound entries
    → count_if (has_id id) (swap_remove i entries) ≡ 0
gone id entries i e at is h =
    let one : count_if (has_id id) (e ∷ []) ≡ 1 = count-one id e is in
    omega (arith, count-swap_remove (has_id id) entries i e at, h.distinct id, one)

unnamed :
    (hex expected : Text) (id : List ℕ) (later : ℕ) (table : ReceiptTable)
    → decode_exact hex receipt_len ≡ some id
    → count_if (has_id id) table ≡ 0
    → IsSound table
    → (redeem hex expected later table).1 ≡ none
unfolding sweep
unnamed hex expected id later table d zero_left h = elim (redeem-Cases hex expected later table h) [
  | inl none_left ↦ ap (λ r. r.1) none_left.0
  | inr one ↦
      let same : one.2.0 ≡ id = cc (one.2.1, d) in
      let found : find (has_id id) (sweep later table) ≡ some one.0 =
        subst (λ x. find (has_id x) (sweep later table) ≡ some one.0) same one.2.3 in
      absurd (
        omega (
          arith,
          find-count (has_id id) (sweep later table) one.0 found,
          count_if-retain-le (has_id id) (is_fresh later) table,
          zero_left,
        ))
]

-- A receipt of a sound table that was redeemed is spent: the same text redeems nothing from the
-- table that is left, for any capability and at any time.
pub redeem_once :
    (hex expected cap : Text) (now : ℕ) (table : ReceiptTable)
    → IsSound table
    → (redeem hex expected now table).1 ≡ some cap
    → (other : Text) (later : ℕ)
    → (redeem hex other later (redeem hex expected now table).0).1 ≡ none
redeem_once hex expected cap now table h ok' other later =
    elim (redeem-Cases hex expected now table h) [
      | inl none_left ↦ absurd (cc (sym (ap (λ r. r.1) none_left.0) ∙ ok'))
      | inr one ↦
          let (e, i, (id, d, is, finds), capped, at, result) = one in
          subst (λ r. (redeem hex other later r.0).1 ≡ none) (sym result)
            (unnamed hex other id later (swap_remove i (sweep now table)) d
              (gone id (sweep now table) i e at (find-eq-some (has_id id) (sweep now table) finds)
                (sweep-IsSound now table h))
              (swap_remove-IsSound (sweep now table) i e at (sweep-IsSound now table h)))
    ]
