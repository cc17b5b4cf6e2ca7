-- ===== src/Broker/Queued.antt =====
-- What the steps of the broker (crates/secrets/src/server/) other than those of the worker do to the
-- queue.
use mathlib.Core.Path.{subst}
use forward.Prelude.{
  sym, ◌∙◌, ℕ, ◌≡◌, refl, ◌==◌, Option, none, some, List, [], ◌∷◌, Text, inl, inr, Bool-cases,
  checked_add, checked_duration_since,
}
use forward.ErrCode.{Result, ok, err}
use forward.Containment.{Kernel, PinnedPeer}
use forward.Grants.Scope.{Scope, SessionToken}
use forward.Grants.Table.{GrantTable}
use forward.Grants.Registry.{Registry, Registration}
use forward.Grants.Registry as Registry
use forward.Receipts.{Entropy, ReceiptTable}
use forward.Receipts as Receipts
use forward.Requests.Types as Types
use forward.Requests.Types.{Queue, RequestState}
use forward.Requests.Queue as Queue
use forward.Requests.Moves.{
  Held, held_of, Moves, stays, then-Moves, enqueue-Moves, deny-Moves, timeout-Moves, prune-Moves,
  sweep-Moves,
}
use forward.Broker.State.{
  State, ActiveDecrypt, Outcome, done, fields, payload, bytes, receipt_text, refused, kill_active,
  kill_group,
}
use forward.Broker.Control.{registered, register_token, deny, deny_running}
use forward.Broker.Approval.{
  Backing, resolve_parsed, resolved, answer_or_ask, ask, enqueue_until, queued, poll_state,
  expire_waiting,
}
use forward.Broker.Capability.{
  finish_outcome, finish_fresh, redeem_capability, redeem_until, record_redeemed,
}
use forward.Broker.Worker.{Job, upkeep, sweep_queue, kill_all}
use forward.Broker.Finish.{queue-kill_active}

-- What the worker's job holds.
abbrev pub held_by : Option Job → Held
held_by none = none
held_by (some job) = held_of job.id job.generation

abbrev pub Turns : State → Option Job → State → Option Job → Type 0
Turns s j s' j' = Moves (held_by j) s.queue (held_by j') s'.queue

pub same_queue : (held : Held) (q q' : Queue) → q' ≡ q → Moves held q held q'
same_queue held q q' same = subst (Moves held q held) (sym same) (stays held q)

after_kill :
    (held held' : Held) (id : ℕ) (q : Queue) (s : State)
    → Moves held q held' s.queue
    → Moves held q held' (kill_active id s).queue
after_kill held held' id q s m = subst (Moves held q held') (sym (queue-kill_active id s)) m

module _ (held : Held) where
  pub register_token-queue :
      (token : Result SessionToken) (id : Text) (root : PinnedPeer) (s : State)
      → (register_token token id root s).0.queue ≡ s.queue
  unfolding register_token registered
  register_token-queue (ok token) id root s =
      either (Registry.register (record { token = token; session_id = id; root = root }) s.registry)
    where
      either : (r : Registry × Result (List SessionToken)) → (registered s r).0.queue ≡ s.queue
      either (registry, ok displaced) = refl
      either (registry, err e) = refl
  register_token-queue (err e) id root s = refl

  pub deny-queue : (id now : ℕ) (s : State) → Moves held s.queue held (deny id now s).0.queue
  unfolding deny
  deny-queue id now s = elim (Bool-cases (Queue.deny id now s.queue).1) [
    | inl was ↦ rw was (
        after_kill held held id s.queue (record s { queue = (Queue.deny id now s.queue).0 })
          (deny-Moves held id now s.queue))
    | inr not_pending ↦ rw not_pending (deny-Moves held id now s.queue)
  ]

  pub running-queue :
      (active : Option ActiveDecrypt) (now : ℕ) (s : State)
      → Moves held s.queue held (deny_running active now s).queue
  unfolding deny_running kill_group
  running-queue none now s = stays held s.queue
  running-queue (some active) now s = deny-Moves held active.id now s.queue

  pub resolve-queue :
      (k : Kernel) (key : Result Text) (token : Result (Option SessionToken)) (path : Option Text)
      (caller : PinnedPeer) (s : State)
      → (resolve_parsed k key token path caller s).0.queue ≡ s.queue
  unfolding resolve_parsed resolved
  resolve-queue k (err e) token path caller s = refl
  resolve-queue k (ok key) (err e) path caller s = refl
  resolve-queue k (ok key) (ok token) path caller s = refl

  ask-queue :
      (scope : Scope) (key : Text) (ttl : Option ℕ) (now : ℕ) (source : Result Text) (s : State)
      → Moves held s.queue held (ask scope key ttl now source s).0.queue
  unfolding ask enqueue_until queued
  ask-queue scope key ttl now (err e) s = stays held s.queue
  ask-queue scope key ttl now (ok source) s = until (checked_add now s.config.request_ttl)
    where
      enqueued :
          (deadline : ℕ) (r : Queue × Result ℕ)
          → Moves held s.queue held r.0
          → Moves held s.queue held (queued source deadline r s).0.queue
      enqueued deadline (q, ok id) m = m
      enqueued deadline (q, err e) m = m

      until :
          (o : Option ℕ)
          → Moves held s.queue held (enqueue_until scope key ttl now source o s).0.queue
      until none = stays held s.queue
      until (some deadline) =
          enqueued deadline (Queue.enqueue scope key now ttl s.queue)
            (enqueue-Moves held scope key now ttl s.queue)

  pub answer-queue :
      (backing : Backing) (scope : Scope) (key : Text) (ttl : Option ℕ) (now : ℕ)
      (r : GrantTable × Option Text) (s : State)
      → Moves held s.queue held (answer_or_ask backing scope key ttl now r s).0.queue
  unfolding answer_or_ask
  answer-queue backing scope key ttl now (grants, some source) s = stays held s.queue
  answer-queue backing scope key ttl now (grants, none) s =
      ask-queue scope key ttl now (backing.locate key) (record s { grants = grants })

  expire-queue :
      (source : Text) (id deadline now : ℕ) (o : Option ℕ) (s : State)
      → Moves held s.queue held (expire_waiting source id deadline now o s).0.queue
  unfolding expire_waiting
  expire-queue source id deadline now none s =
      after_kill held held id s.queue (record s { queue = (Queue.timeout id now s.queue).0 })
        (timeout-Moves held id now s.queue)
  expire-queue source id deadline now (some left) s = stays held s.queue

  pub poll-queue :
      (source : Text) (id deadline now : ℕ) (o : Option RequestState) (s : State)
      → Moves held s.queue held (poll_state source id deadline now o s).0.queue
  unfolding poll_state
  poll-queue source id deadline now none s = stays held s.queue
  poll-queue source id deadline now (some Types.granted) s = stays held s.queue
  poll-queue source id deadline now (some Types.denied) s = stays held s.queue
  poll-queue source id deadline now (some Types.timed_out) s = stays held s.queue
  poll-queue source id deadline now (some Types.failed) s = stays held s.queue
  poll-queue source id deadline now (some Types.pending) s =
      expire-queue source id deadline now (checked_duration_since deadline now) s
  poll-queue source id deadline now (some Types.decrypting) s =
      expire-queue source id deadline now (checked_duration_since deadline now) s

  pub finish_outcome-queue :
      (rounds : ℕ) (entropy : Entropy) (cap : Text) (epoch now : ℕ) (o : Outcome) (id : Option ℕ)
      (s : State)
      → (finish_outcome rounds entropy cap epoch now o id s).0.queue ≡ s.queue
  unfolding finish_outcome finish_fresh
  finish_outcome-queue rounds entropy cap epoch now (fields f) (some id) s =
      elim (Bool-cases (s.lock_epoch == epoch)) [
        | inl same ↦ rw same refl
        | inr locked ↦ rw locked refl
      ]
  finish_outcome-queue rounds entropy cap epoch now (fields f) none s = refl
  finish_outcome-queue rounds entropy cap epoch now done id s = refl
  finish_outcome-queue rounds entropy cap epoch now (payload p) id s = refl
  finish_outcome-queue rounds entropy cap epoch now (bytes b) id s = refl
  finish_outcome-queue rounds entropy cap epoch now (receipt_text t) id s = refl
  finish_outcome-queue rounds entropy cap epoch now (refused e) id s = refl

  pub redeem-queue :
      (hex : Text) (cap : Result Text) (now : ℕ) (s : State)
      → (redeem_capability hex cap now s).0.queue ≡ s.queue
  unfolding redeem_capability redeem_until record_redeemed
  redeem-queue hex (err e) now s = refl
  redeem-queue hex (ok cap) now s = until (checked_add now s.config.max_grant)
    where
      recorded :
          (deadline : ℕ) (r : ReceiptTable × Option Text)
          → (record_redeemed deadline now r s).0.queue ≡ s.queue
      recorded deadline (receipts, none) = refl
      recorded deadline (receipts, some c) = refl

      until : (o : Option ℕ) → (redeem_until hex cap now o s).0.queue ≡ s.queue
      until none = refl
      until (some deadline) = recorded deadline (Receipts.redeem hex cap now s.receipts)

  kill_all-queue : (ids : List ℕ) (s : State) → (kill_all ids s).queue ≡ s.queue
  unfolding kill_all
  kill_all-queue [] s = refl
  kill_all-queue (id ∷ ids) s = kill_all-queue ids (kill_active id s) ∙ queue-kill_active id s

  pub upkeep-queue :
      (k : Kernel) (now : ℕ) (s : State) → Moves held s.queue held (upkeep k now s).queue
  unfolding upkeep sweep_queue
  upkeep-queue k now s =
      let swept = Queue.sweep_timeouts now s.queue in
      let same : (sweep_queue now s).queue ≡ swept.0 =
        kill_all-queue swept.1 (record s { queue = swept.0 }) in
      then-Moves (subst (Moves held s.queue held) (sym same) (sweep-Moves held now s.queue))
        (prune-Moves held now (sweep_queue now s).queue)
