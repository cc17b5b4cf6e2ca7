-- ===== src/Broker/Capability.antt =====
-- crates/secrets/src/server/dispatch/capability.rs: AUTHORIZE, whose last part is
-- `finish_authorization`, and REDEEM.
use forward.Prelude.{ℕ, ◌==◌, Option, none, some, if◌then◌else◌, Text, checked_add}
use forward.ErrCode.{Result, ok, err, internal, denied, too_many_pending}
use forward.Names.{parse_capability, key_name}
use forward.Receipts.{
  Entropy, MintError, MintResult, ReceiptTable, would_block, io_error, receipt,
  refused as mint_refused, unfinished, mint,
}
use forward.Receipts as Receipts
use forward.CapabilityGrants as CapabilityGrants
use forward.Broker.State.{State, Outcome, fields, receipt_text, refused, redeemed, Decision, decide}
use forward.Broker.Approval.{Access}

unfoldable pub receipt_mint_failure : MintError → Outcome
receipt_mint_failure would_block = refused too_many_pending
receipt_mint_failure io_error = refused internal

-- No answer of the code: the rounds given to the loop of `mint` were too few.
unfoldable pub minted_outcome : MintResult → Option Outcome
minted_outcome (receipt hex) = some (receipt_text hex)
minted_outcome (mint_refused e) = some (receipt_mint_failure e)
minted_outcome unfinished = none

unfoldable pub finish_fresh : ℕ → Entropy → Text → ℕ → ℕ → State → State × Option Outcome
finish_fresh rounds entropy cap epoch_before now s =
    if s.lock_epoch == epoch_before
    then (
      record s { receipts = (mint rounds entropy cap now s.receipts).0 },
      minted_outcome (mint rounds entropy cap now s.receipts).1,
    )
    else (s, some (refused denied))

-- `match (outcome, request_id)`
unfoldable pub finish_outcome :
    ℕ → Entropy → Text → ℕ → ℕ → Outcome → Option ℕ → State → State × Option Outcome
finish_outcome rounds entropy cap epoch_before now (fields f) (some id) s =
    finish_fresh rounds entropy cap epoch_before now s
finish_outcome rounds entropy cap epoch_before now other id s = (s, some other)

unfoldable pub finish_authorization :
    ℕ → Entropy → Text → ℕ → ℕ → Decision → State → State × Option Decision
finish_authorization rounds entropy cap epoch_before now decision s =
    let (s', outcome) =
      finish_outcome rounds entropy cap epoch_before now decision.outcome decision.request_id s in
    (s', elim outcome [ none ↦ none | some o ↦ some (record decision { outcome = o }) ])

-- The access that `authorize` asks for, and the epoch that it saw first.
unfoldable pub begin_authorization :
    Text → Option Text → Option Text → State → Result (Text × Access × ℕ)
begin_authorization cap token_hex path s = elim (parse_capability cap) [
  | err e ↦ err e
  | ok cap' ↦ ok (
    cap',
    record { key = key_name cap'; token_hex = token_hex; tty = path; requested_ttl = none },
    s.lock_epoch,
  )
]

unfoldable pub redeemed_outcome : Text → ℕ → Option ℕ → State → Outcome
redeemed_outcome cap epoch none s = refused internal
redeemed_outcome cap epoch (some ttl) s = fields (redeemed cap s.instance_id epoch ttl)

unfoldable pub record_redeemed : ℕ → ℕ → ReceiptTable × Option Text → State → State × Decision
record_redeemed deadline now (receipts, none) s =
    (record s { receipts = receipts }, decide (refused denied))
record_redeemed deadline now (receipts, some cap) s =
    let (grants, index) = CapabilityGrants.insert deadline s.capability_grants in
    (
      record s { receipts = receipts; capability_grants = grants },
      decide
          (redeemed_outcome cap s.lock_epoch (CapabilityGrants.remaining_secs index now grants) s),
    )

unfoldable pub redeem_until : Text → Text → ℕ → Option ℕ → State → State × Decision
redeem_until receipt_hex cap now none s = (s, decide (refused internal))
redeem_until receipt_hex cap now (some deadline) s =
    record_redeemed deadline now (Receipts.redeem receipt_hex cap now s.receipts) s

unfoldable pub redeem_capability : Text → Result Text → ℕ → State → State × Decision
redeem_capability receipt_hex (err e) now s = (s, decide (refused e))
redeem_capability receipt_hex (ok cap) now s =
    redeem_until receipt_hex cap now (checked_add now s.config.max_grant) s

unfoldable pub redeem : Text → Text → ℕ → State → State × Decision
redeem receipt_hex expected_cap now s =
    redeem_capability receipt_hex (parse_capability expected_cap) now s
