-- ===== src/Broker/Waits.antt =====
-- What AUTHORIZE asks of the queue (crates/secrets/src/server/approval.rs), and how its end mints
-- (server/dispatch/capability.rs).
use mathlib.Core.Path.{subst}
use forward.Prelude.{
  ap, ℕ, ◌≡◌, ◌≢◌, refl, sym, true, Option, none, some, arith, Text, ◌==◌, Bool-cases, inl, inr,
  checked_add,
}
use forward.ErrCode.{ErrCode, Result, ok, err}
use forward.Grants.Scope.{Scope}
use forward.Grants.Table.{GrantTable, FileIdentity, lookup}
use forward.Requests.Types.{Queue}
use forward.Requests.Queue as Queue
use forward.Requests.Sound.{IsSound}
use forward.Requests.Flight.{Describes, describe-enqueue}
use forward.Receipts.{
  Entropy, mint, MintResult, receipt, refused as mint_refused, unfinished, would_block, io_error,
}
use forward.Broker.State.{
  State, Decision, Outcome, Fields, done, fields, payload, bytes, receipt_text, refused,
}
use forward.Broker.Approval.{
  Backing, Approval, rejected, Progress, finished, waiting, begin_approval, answer_or_ask, ask,
  enqueue_until, queued, use_grant, is_unchanged,
}
use forward.Broker.Capability.{
  finish_outcome, finish_fresh, finish_authorization, minted_outcome, receipt_mint_failure,
}

minted_receipt :
    (r : MintResult) (hex : Text) → minted_outcome r ≡ some (receipt_text hex) → r ≡ receipt hex
unfolding minted_outcome receipt_mint_failure
minted_receipt (receipt x) hex h = cc h
minted_receipt (mint_refused would_block) hex h = absurd (cc h)
minted_receipt (mint_refused io_error) hex h = absurd (cc h)
minted_receipt unfinished hex h = absurd (cc h)

-- The end of AUTHORIZE makes a receipt only of the fields of an approval that named a request, and
-- only where no LOCK has ended the epoch that it began in; the receipt is the one that `mint` made.
pub receipt_needs_fields :
    (rounds : ℕ) (entropy : Entropy) (cap : Text) (epoch_before now : ℕ) (outcome : Outcome)
    (id : Option ℕ) (s : State) (hex : Text)
    → ((t : Text) → outcome ≢ receipt_text t)
    → (finish_outcome rounds entropy cap epoch_before now outcome id s).1 ≡ some (receipt_text hex)
    → ((f : Fields) × (outcome ≡ fields f))
      × ((request : ℕ) × (id ≡ some request))
      × (s.lock_epoch ≡ epoch_before)
      × ((mint rounds entropy cap now s.receipts).1 ≡ receipt hex)
unfolding finish_outcome finish_fresh
receipt_needs_fields rounds entropy cap epoch_before now (fields f) (some request) s hex other h =
    elim (Bool-cases (s.lock_epoch == epoch_before)) [
      | inl same ↦ (
        (f, refl),
        (request, refl),
        ground arith,
        minted_receipt (mint rounds entropy cap now s.receipts).1 hex (ground arith),
      )
      | inr locked ↦ absurd (ground arith)
    ]
receipt_needs_fields rounds entropy cap epoch_before now (fields f) none s hex other h =
    absurd (cc h)
receipt_needs_fields rounds entropy cap epoch_before now done id s hex other h = absurd (cc h)
receipt_needs_fields rounds entropy cap epoch_before now (payload p) id s hex other h =
    absurd (cc h)
receipt_needs_fields rounds entropy cap epoch_before now (bytes b) id s hex other h = absurd (cc h)
receipt_needs_fields rounds entropy cap epoch_before now (receipt_text t) id s hex other h =
    absurd (other t refl)
receipt_needs_fields rounds entropy cap epoch_before now (refused e) id s hex other h =
    absurd (cc h)

pub finish_authorization-outcome :
    (rounds : ℕ) (entropy : Entropy) (cap : Text) (epoch_before now : ℕ) (decision : Decision)
    (s : State) (d : Decision)
    → (finish_authorization rounds entropy cap epoch_before now decision s).1 ≡ some d
    → (finish_outcome rounds entropy cap epoch_before now decision.outcome decision.request_id s).1
      ≡ some d.outcome
unfolding finish_authorization
finish_authorization-outcome rounds entropy cap epoch_before now decision s d h =
    replaced
      (finish_outcome rounds entropy cap epoch_before now decision.outcome decision.request_id s).1
      h
  where
    replaced :
        (answer : Option Outcome)
        → elim answer [ none ↦ none | some o ↦ some (record decision { outcome = o }) ] ≡ some d
        → answer ≡ some d.outcome
    replaced none e = absurd (cc e)
    replaced (some o) e = ap (λ x. elim x [ none ↦ some o | some y ↦ some y.outcome ]) e

-- Where a fresh approval is asked for, no grant is used.
use_grant-fresh :
    (backing : Backing) (scope : Scope) (key : Text) (found : Option (Text × Text × FileIdentity))
    (grants : GrantTable)
    → (use_grant backing scope key true found grants).1 ≡ none
unfolding use_grant
use_grant-fresh backing scope key none grants = refl
use_grant-fresh backing scope key (some (value, from, identity)) grants =
    elim (Bool-cases (is_unchanged (backing.identity key) identity)) [
      | inl e ↦ rw e refl
      | inr e ↦ rw e refl
    ]

-- What asking for a request comes to: a refusal, or waiting for the id that the queue handed out.
pub data Asks (scope : Scope) (key : Text) (ttl : Option ℕ) (now : ℕ) (q : Queue)
    : State × Progress → Type 0 where
  refuses : {s : State} {e : ErrCode} → Asks scope key ttl now q (s, finished (rejected e))
  awaits :
      {s : State} {source : Text} {id deadline : ℕ}
      → (Queue.enqueue scope key now ttl q).1 ≡ ok id
      → s.queue ≡ (Queue.enqueue scope key now ttl q).0
      → Asks scope key ttl now q (s, waiting source id deadline)

module _ (scope : Scope) (key : Text) (ttl : Option ℕ) (now : ℕ) where
  queued-Asks :
      (source : Text) (deadline : ℕ) (s : State) (r : Queue × Result ℕ)
      → Queue.enqueue scope key now ttl s.queue ≡ r
      → Asks scope key ttl now s.queue (queued source deadline r s)
  unfolding queued
  queued-Asks source deadline s (queue, ok id) e = awaits (ap (λ r. r.1) e) (sym (ap (λ r. r.0) e))
  queued-Asks source deadline s (queue, err x) e = refuses

  until-Asks :
      (source : Text) (s : State) (o : Option ℕ)
      → Asks scope key ttl now s.queue (enqueue_until scope key ttl now source o s)
  unfolding enqueue_until
  until-Asks source s none = refuses
  until-Asks source s (some deadline) = queued-Asks source deadline s _ refl

  ask-Asks :
      (found : Result Text) (s : State)
      → Asks scope key ttl now s.queue (ask scope key ttl now found s)
  unfolding ask
  ask-Asks (ok source) s = until-Asks source s (checked_add now s.config.request_ttl)
  ask-Asks (err e) s = refuses

  answer-Asks :
      (backing : Backing) (r : GrantTable × Option Text) (s : State)
      → r.1 ≡ none
      → Asks scope key ttl now s.queue (answer_or_ask backing scope key ttl now r s)
  unfolding answer_or_ask
  answer-Asks backing (grants, some source) s h = absurd (cc h)
  answer-Asks backing (grants, none) s h =
      ask-Asks (backing.locate key) (record s { grants = grants })

  pub begin-Asks :
      (backing : Backing) (looked : ℕ) (s : State)
      → Asks scope key ttl now s.queue (begin_approval backing scope key true ttl looked now s)
  unfolding begin_approval
  begin-Asks backing looked s =
      answer-Asks backing _ s
        (use_grant-fresh backing scope key (lookup scope key looked s.grants) s.grants)

  Asks-waiting :
      {q : Queue} {r : State × Progress} {source : Text} {id deadline : ℕ}
      → Asks scope key ttl now q r
      → r.1 ≡ waiting source id deadline
      → ((Queue.enqueue scope key now ttl q).1 ≡ ok id)
        × (r.0.queue ≡ (Queue.enqueue scope key now ttl q).0)
  Asks-waiting refuses h = absurd (cc h)
  Asks-waiting (awaits e same) h = (cc (e, h), same)

  pub Asks-finished :
      {q : Queue} {r : State × Progress} {a : Approval}
      → Asks scope key ttl now q r
      → r.1 ≡ finished a
      → (e : ErrCode) × (a ≡ rejected e)
  Asks-finished (refuses {e = e}) h = (e, cc h)
  Asks-finished (awaits e same) h = absurd (cc h)

  -- A thread that waits does so for a request of the scope and the key.
  pub waits-Describes :
      (backing : Backing) (looked : ℕ) (s : State) {source : Text} {id deadline : ℕ}
      → IsSound s.queue
      → (begin_approval backing scope key true ttl looked now s).1 ≡ waiting source id deadline
      → Describes scope key
          (Queue.describe id (begin_approval backing scope key true ttl looked now s).0.queue)
  waits-Describes backing looked s {id = id} sound h =
      let (handed, same) = Asks-waiting (begin-Asks backing looked s) h in
      subst (λ q. Describes scope key (Queue.describe id q)) (sym same)
        (describe-enqueue scope key now ttl s.queue id sound handed)
