-- ===== src/Examples/Receipts.antt =====
-- The receipts' theorems at a concrete table.
use mathlib.Core.Path.{subst}
use forward.Prelude.{
  ℕ, ◌≡◌, ◌≢◌, ◌↔◌, refl, true, none, some, List, [], arith, Text, All, codes, length, second, ◌*◌,
}
use forward.Hex.{encode, IsByte}
use forward.Receipts.{
  Entry, ReceiptTable, Entropy, receipt, unfinished, mint, mint_loop, sweep, redeem,
}
use forward.Receipts.Laws.{IsSound, Names, redeem_iff}
use forward.Receipts.Once.{redeem_once}
use forward.Receipts.Mint.{mint-IsSound, redeem-mint, mint_ends, YieldsBytes}
use forward.Examples.Data.{receipt_bytes, receipt_bytes-IsByte}

abbrev device : Entropy
device = record { opens = true; draw = λ k. some receipt_bytes }

abbrev SameBytes : List ℕ → Type 0
SameBytes id = (length id ≡ 32) × All IsByte id

device-YieldsBytes : YieldsBytes device.draw
device-YieldsBytes j id e =
    let same : receipt_bytes ≡ id = cc e in subst SameBytes same (refl, receipt_bytes-IsByte)

abbrev deploy : Text
deploy = codes "deploy"

empty-IsSound : IsSound []
empty-IsSound = record { distinct = λ id. omega arith; fits = omega arith }

abbrev minted_table : ReceiptTable
minted_table = (mint 1 device deploy 0 []).0

minted-IsSound : IsSound minted_table
minted-IsSound = mint-IsSound 1 device deploy 0 [] empty-IsSound

minted_answer : (mint 1 device deploy 0 []).1 ≡ receipt (encode receipt_bytes)
unfolding mint mint_loop sweep
minted_answer = refl

redeemed_once : (redeem (encode receipt_bytes) deploy (5 * second) minted_table).1 ≡ some deploy
redeemed_once =
    redeem-mint 1 device deploy (encode receipt_bytes) 0 (5 * second) [] device-YieldsBytes
      empty-IsSound (omega arith) minted_answer

redeem_once_example :
    (redeem
      (encode receipt_bytes)
      deploy
      (6 * second)
      (redeem (encode receipt_bytes) deploy (5 * second) minted_table).0).1
    ≡ none
redeem_once_example =
    redeem_once (encode receipt_bytes) deploy deploy (5 * second) minted_table minted-IsSound
      redeemed_once deploy (6 * second)

redeem_iff_example : ((redeem (encode receipt_bytes) deploy 7 minted_table).1 ≡ some deploy) ↔ (
    (deploy ≡ deploy)
    × ((e : Entry) × Names (encode receipt_bytes) 7 minted_table e × (e.cap ≡ deploy)))
redeem_iff_example = redeem_iff (encode receipt_bytes) deploy deploy 7 minted_table minted-IsSound

mint_ends_example : (mint 1 device deploy 0 []).1 ≢ unfinished
unfolding sweep
mint_ends_example = mint_ends device deploy 0 [] receipt_bytes 0 1 refl refl (omega arith)
