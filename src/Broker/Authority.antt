-- ===== src/Broker/Authority.antt =====
-- What each handler of the broker (crates/secrets/src/server/) leaves alone: the registry, the grants,
-- the configuration and the lock's epoch.
use forward.Prelude.{
  ◌∙◌, ℕ, ◌≡◌, refl, ◌==◌, Option, none, some, List, [], ◌∷◌, arith, Text, inl, inr, Bool-cases,
  is_some_and, checked_add, checked_duration_since,
}
use forward.ErrCode.{Result, ok, err}
use forward.Grants.Table.{GrantTable}
use forward.Grants.Registry.{Registry}
use forward.Names.{parse_capability}
use forward.Requests.Types as Types
use forward.Requests.Types.{Queue, RequestState}
use forward.Requests.Queue as Queue
use forward.Receipts.{Entropy, ReceiptTable}
use forward.Receipts as Receipts
use forward.Broker.State.{
  State, ActiveDecrypt, Config, Outcome, done, fields, payload, bytes, receipt_text, refused,
  Decision, kill_active, kill_group,
}
use forward.Broker.Control.{deny, deny_running}
use forward.Broker.Approval.{poll_approval, poll_state, expire_waiting}
use forward.Broker.Capability.{
  finish_authorization, finish_outcome, finish_fresh, redeem, redeem_capability, redeem_until,
  record_redeemed,
}
use forward.Broker.Worker.{Job, decrypt_started, take_ready, marked, job_of, kill_all, sweep_queue}

abbrev pub authority : State → Registry × GrantTable × Config × ℕ
authority s = (s.registry, s.grants, s.config, s.lock_epoch)

authority-kill_group :
    (active : Option ActiveDecrypt) (s : State) → authority (kill_group active s) ≡ authority s
unfolding kill_group
authority-kill_group none s = refl
authority-kill_group (some active) s = refl

pub authority-kill_active : (id : ℕ) (s : State) → authority (kill_active id s) ≡ authority s
unfolding kill_active
authority-kill_active id s =
    elim (Bool-cases (is_some_and s.active_decrypt (λ active. active.id == id))) [
      | inl it ↦ rw it (authority-kill_group s.active_decrypt s)
      | inr other ↦ rw other refl
    ]

pub authority-deny : (id now : ℕ) (s : State) → authority (deny id now s).0 ≡ authority s
unfolding deny
authority-deny id now s = elim (Bool-cases (Queue.deny id now s.queue).1) [
  | inl was ↦ rw was (authority-kill_active id (record s { queue = (Queue.deny id now s.queue).0 }))
  | inr not_pending ↦ rw not_pending refl
]

pub authority-deny_running :
    (active : Option ActiveDecrypt) (now : ℕ) (s : State)
    → authority (deny_running active now s) ≡ authority s
unfolding deny_running
authority-deny_running none now s = refl
authority-deny_running (some active) now s =
    authority-kill_group (some active) (record s { queue = (Queue.deny active.id now s.queue).0 })

expire-authority :
    (source : Text) (id deadline now : ℕ) (o : Option ℕ) (s : State)
    → authority (expire_waiting source id deadline now o s).0 ≡ authority s
unfolding expire_waiting
expire-authority source id deadline now none s =
    authority-kill_active id (record s { queue = (Queue.timeout id now s.queue).0 })
expire-authority source id deadline now (some left) s = refl

poll_state-authority :
    (source : Text) (id deadline now : ℕ) (o : Option RequestState) (s : State)
    → authority (poll_state source id deadline now o s).0 ≡ authority s
unfolding poll_state
poll_state-authority source id deadline now none s = refl
poll_state-authority source id deadline now (some Types.granted) s = refl
poll_state-authority source id deadline now (some Types.denied) s = refl
poll_state-authority source id deadline now (some Types.timed_out) s = refl
poll_state-authority source id deadline now (some Types.failed) s = refl
poll_state-authority source id deadline now (some Types.pending) s =
    expire-authority source id deadline now (checked_duration_since deadline now) s
poll_state-authority source id deadline now (some Types.decrypting) s =
    expire-authority source id deadline now (checked_duration_since deadline now) s

pub authority-poll :
    (source : Text) (id deadline now : ℕ) (s : State)
    → authority (poll_approval source id deadline now s).0 ≡ authority s
unfolding poll_approval
authority-poll source id deadline now s =
    poll_state-authority source id deadline now (Queue.state_of id s.queue) s

module _ (rounds : ℕ) (entropy : Entropy) (cap : Text) (epoch_before now : ℕ) where
  fresh-authority :
      (s : State) → authority (finish_fresh rounds entropy cap epoch_before now s).0 ≡ authority s
  unfolding finish_fresh
  fresh-authority s = elim (Bool-cases (s.lock_epoch == epoch_before)) [
    | inl same ↦ rw same refl
    | inr locked ↦ rw locked refl
  ]

  finish-authority :
      (outcome : Outcome) (id : Option ℕ) (s : State)
      → authority (finish_outcome rounds entropy cap epoch_before now outcome id s).0 ≡ authority s
  unfolding finish_outcome
  finish-authority (fields f) (some id) s = fresh-authority s
  finish-authority (fields f) none s = refl
  finish-authority done id s = refl
  finish-authority (payload p) id s = refl
  finish-authority (bytes b) id s = refl
  finish-authority (receipt_text t) id s = refl
  finish-authority (refused e) id s = refl

  pub authority-finish_authorization :
      (decision : Decision) (s : State)
      → authority (finish_authorization rounds entropy cap epoch_before now decision s).0
        ≡ authority s
  unfolding finish_authorization
  authority-finish_authorization decision s =
      finish-authority decision.outcome decision.request_id s

record_redeemed-authority :
    (deadline now : ℕ) (r : ReceiptTable × Option Text) (s : State)
    → authority (record_redeemed deadline now r s).0 ≡ authority s
unfolding record_redeemed
record_redeemed-authority deadline now (receipts, none) s = refl
record_redeemed-authority deadline now (receipts, some cap) s = refl

redeem_until-authority :
    (hex cap : Text) (now : ℕ) (o : Option ℕ) (s : State)
    → authority (redeem_until hex cap now o s).0 ≡ authority s
unfolding redeem_until
redeem_until-authority hex cap now none s = refl
redeem_until-authority hex cap now (some deadline) s =
    record_redeemed-authority deadline now (Receipts.redeem hex cap now s.receipts) s

redeem_capability-authority :
    (hex : Text) (cap : Result Text) (now : ℕ) (s : State)
    → authority (redeem_capability hex cap now s).0 ≡ authority s
unfolding redeem_capability
redeem_capability-authority hex (err e) now s = refl
redeem_capability-authority hex (ok cap) now s =
    redeem_until-authority hex cap now (checked_add now s.config.max_grant) s

pub authority-redeem :
    (hex cap : Text) (now : ℕ) (s : State) → authority (redeem hex cap now s).0 ≡ authority s
unfolding redeem
authority-redeem hex cap now s = redeem_capability-authority hex (parse_capability cap) now s

pub authority-started :
    (job : Job) (group : ℕ) (s : State) → authority (decrypt_started job group s) ≡ authority s
unfolding decrypt_started
authority-started job group s = ground arith

job_of-authority :
    (id generation now : ℕ) (o : Option _) (s : State)
    → authority (job_of id generation now o s).0 ≡ authority s
unfolding job_of
job_of-authority id generation now none s = refl
job_of-authority id generation now (some (scope, key, ttl)) s = refl

marked-authority :
    (id now : ℕ) (r : Queue × Option ℕ) (s : State) → authority (marked id now r s).0 ≡ authority s
unfolding marked
marked-authority id now (queue, none) s = refl
marked-authority id now (queue, some generation) s =
    job_of-authority id generation now (Queue.describe id queue) (record s { queue = queue })

pub authority-take_ready :
    (now : ℕ) (o : Option ℕ) (s : State) → authority (take_ready now o s).0 ≡ authority s
unfolding take_ready
authority-take_ready now none s = refl
authority-take_ready now (some id) s =
    marked-authority id now (Queue.mark_decrypting id now s.queue) s

kill_all-authority : (ids : List ℕ) (s : State) → authority (kill_all ids s) ≡ authority s
unfolding kill_all
kill_all-authority [] s = refl
kill_all-authority (id ∷ ids) s =
    kill_all-authority ids (kill_active id s) ∙ authority-kill_active id s

pub authority-sweep_queue : (now : ℕ) (s : State) → authority (sweep_queue now s) ≡ authority s
unfolding sweep_queue
authority-sweep_queue now s =
    kill_all-authority (Queue.sweep_timeouts now s.queue).1
      (record s { queue = (Queue.sweep_timeouts now s.queue).0 })
