-- ===== src/Receipts.antt =====
-- crates/secrets/src/receipts.rs: single-use receipts for capability authorizations. A receipt is
-- kept as its bytes; what `/dev/urandom` yields is an argument.
pub mod Scan
pub mod Laws
pub mod Once
pub mod Mint
use Prim.Native.Nat.{bit_and, bit_or}
use forward.Prelude.{
  ℕ, zero, suc, ◌+◌, ◌-◌, ◌*◌, ◌%◌, ◌≡◌, Bool, true, false, not, ◌&&◌, ◌||◌, Option, none, some,
  List, [], ◌∷◌, ◌++◌, ltb, leb, ◌==◌, if◌then◌else◌, any, retain, length, get_elem?, Text, text_eq,
  is_some_and, duration_since, second,
}
use forward.Hex.{encode, decode_exact}

abbrev pub receipt_len : ℕ
receipt_len = 32

abbrev pub receipt_ttl : ℕ
receipt_ttl = 60 * second

abbrev pub max_receipts : ℕ
max_receipts = 32

pub record Entry : Type 0 where
  pub id : List ℕ
  pub cap : Text
  pub minted : ℕ

abbrev pub ReceiptTable : Type 0
ReceiptTable = List Entry

abbrev pub has_id : List ℕ → Entry → Bool
has_id id entry = text_eq entry.id id

abbrev pub is_fresh : ℕ → Entry → Bool
is_fresh now entry = ltb (duration_since now entry.minted) receipt_ttl

unfoldable pub sweep : ℕ → ReceiptTable → ReceiptTable
sweep now = retain (is_fresh now)

unfoldable pub clear : ReceiptTable → ReceiptTable
clear entries = []

pub data MintError : Type 0 where
  would_block io_error : MintError

-- `unfinished` is no answer of the code: the rounds given were too few.
pub data MintResult : Type 0 where
  receipt : Text → MintResult
  refused : MintError → MintResult
  unfinished : MintResult

-- What `/dev/urandom` does: whether it opens, and what each read of 32 bytes yields.
pub record Entropy : Type 0 where
  pub opens : Bool
  pub draw : ℕ → Option (List ℕ)

unfoldable pub mint_id :
    (ReceiptTable → ReceiptTable × MintResult)
    → Text
    → ℕ
    → Option (List ℕ)
    → ReceiptTable
    → ReceiptTable × MintResult
mint_id again cap now none entries = (entries, refused io_error)
mint_id again cap now (some id) entries = elim (any (has_id id) entries) [
  | true ↦ again entries
  | false ↦ (entries ++ record { id = id; cap = cap; minted = now } ∷ [], receipt (encode id))
]

-- The loop of `mint`, with the number of the read that comes next.
unfoldable pub mint_loop :
    ℕ → (ℕ → Option (List ℕ)) → ℕ → Text → ℕ → ReceiptTable → ReceiptTable × MintResult
unfolding mint_id
mint_loop zero draw k cap now entries = (entries, unfinished)
mint_loop (suc rounds) draw k cap now entries =
    mint_id (mint_loop rounds draw (k + 1) cap now) cap now (draw k) entries

unfoldable pub mint : ℕ → Entropy → Text → ℕ → ReceiptTable → ReceiptTable × MintResult
mint rounds entropy cap now table =
    let entries = sweep now table in
    if leb max_receipts (length entries)
    then (entries, refused would_block)
    else if entropy.opens
    then mint_loop rounds entropy.draw 0 cap now entries
    else (entries, refused io_error)

abbrev pub usize_mod : ℕ
usize_mod = 18446744073709551616

abbrev bit : Bool → ℕ
bit true = 1
bit false = 0

-- `(position & !mask) | (index & mask)`, with `mask` all ones where the bit is set.
select : Bool → ℕ → ℕ → ℕ
select b position index =
    let mask = (usize_mod - bit b) % usize_mod in
    bit_or (bit_and position (usize_mod - 1 - mask)) (bit_and index mask)

-- The scan of `redeem`: it looks at every entry, and keeps the first position that matches.
unfoldable pub scan : List ℕ → ℕ → ℕ → Bool → List Entry → ℕ × Bool
unfolding select
scan presented index position found [] = (position, found)
scan presented index position found (entry ∷ entries) =
    let matches = text_eq entry.id presented in
    scan presented (index + 1) (select (matches && not found) position index) (found || matches)
      entries

abbrev pub last_or : Entry → List Entry → Entry
last_or x [] = x
last_or x (y ∷ ys) = last_or y ys

abbrev pub all_but_last : Entry → List Entry → List Entry
all_but_last x [] = []
all_but_last x (y ∷ ys) = x ∷ all_but_last y ys

abbrev pub last_to_front : List Entry → List Entry
last_to_front [] = []
last_to_front (x ∷ xs) = last_or x xs ∷ all_but_last x xs

-- `Vec::swap_remove`: the last entry takes the place of the one removed.
unfoldable pub swap_remove : ℕ → List Entry → List Entry
swap_remove i [] = []
swap_remove zero (x ∷ xs) = last_to_front xs
swap_remove (suc i) (x ∷ xs) = x ∷ swap_remove i xs

unfoldable pub redeem_entry : Text → ℕ → Option Entry → ReceiptTable → ReceiptTable × Option Text
redeem_entry expected position none entries = (entries, none)
redeem_entry expected position (some entry) entries =
    if text_eq entry.cap expected
    then (swap_remove position entries, some entry.cap)
    else (entries, none)

unfoldable pub redeem_at : Text → ℕ → Bool → ReceiptTable → ReceiptTable × Option Text
redeem_at expected position found entries =
    if found
    then redeem_entry expected position (get_elem? entries position) entries
    else (entries, none)

unfoldable pub redeem_decoded : Text → Option (List ℕ) → ReceiptTable → ReceiptTable × Option Text
redeem_decoded expected none entries = (entries, none)
redeem_decoded expected (some presented) entries =
    let (position, found) = scan presented 0 0 false entries in
    redeem_at expected position found entries

unfoldable pub redeem : Text → Text → ℕ → ReceiptTable → ReceiptTable × Option Text
redeem receipt_hex expected now table =
    redeem_decoded expected (decode_exact receipt_hex receipt_len) (sweep now table)
