-- ===== src/Broker/Epoch.antt =====
-- The lock epoch over runs of the broker (crates/secrets/src/server.rs), and what a LOCK that comes
-- anywhere in a run ends: the job of the worker, and an AUTHORIZE that waits.
use forward.Prelude.{
  ℕ, ◌≤◌, ◌≡◌, refl, ap, ◌∙◌, Bool, true, false, Option, none, some, List, arith, Text, u64_max,
  saturating_add,
}
use forward.ErrCode.{Result, ok, err}
use forward.Containment.{Kernel, PinnedPeer}
use forward.Grants.Scope.{Scope, SessionToken}
use forward.Grants.Table.{lookup, GrantTable}
use forward.Grants.Registry.{Registry}
use forward.Requests.Types.{Queue}
use forward.Requests.Queue as Queue
use forward.Hex.{parse_hex}
use forward.Names.{parse_name}
use forward.Broker.State.{State, kill_active}
use forward.Broker.Control.{registered, register_token, register, unregister}
use forward.Broker.Approval.{
  Backing, resolved, resolve_parsed, resolve_access, begin_approval, queued, enqueue_until, ask,
  answer_or_ask, use_grant, parse_token,
}
use forward.Broker.Worker.{
  Job, DecryptResult, decrypted, decrypt_failed, Decrypted, begin_job, upkeep, finish_job,
  finish_decrypted, deny_stale, completed, insert_grant,
}
use forward.Broker.System.{
  Step, registers, unregisters, denies, locks, resolves, asks, polls, authorizes, redeems, begins,
  starts, finishes,
}
use forward.Broker.Authority.{
  authority, authority-deny, authority-poll, authority-finish_authorization, authority-redeem,
  authority-started, authority-take_ready, authority-sweep_queue, authority-kill_active,
}
use forward.Broker.Lock.{lock_forgets}

epoch_same : (s s' : State) → authority s' ≡ authority s → s'.lock_epoch ≡ s.lock_epoch
epoch_same s s' h = ap (λ a. a.3) h

epoch-registered :
    (r : Registry × Result (List SessionToken)) (s : State)
    → (registered s r).0.lock_epoch ≡ s.lock_epoch
unfolding registered
epoch-registered (registry, ok displaced) s = refl
epoch-registered (registry, err e) s = refl

epoch-register :
    (token : Result SessionToken) (id : Text) (root : PinnedPeer) (s : State)
    → (register_token token id root s).0.lock_epoch ≡ s.lock_epoch
unfolding register_token
epoch-register (ok token) id root s = epoch-registered _ s
epoch-register (err e) id root s = refl

epoch-resolve :
    (k : Kernel) (key : Result Text) (token : Result (Option SessionToken)) (path : Option Text)
    (caller : PinnedPeer) (s : State)
    → (resolve_parsed k key token path caller s).0.lock_epoch ≡ s.lock_epoch
unfolding resolve_parsed resolved
epoch-resolve k (err e) token path caller s = refl
epoch-resolve k (ok key) (err e) path caller s = refl
epoch-resolve k (ok key) (ok token) path caller s = refl

epoch-queued :
    (source : Text) (deadline : ℕ) (r : Queue × Result ℕ) (s : State)
    → (queued source deadline r s).0.lock_epoch ≡ s.lock_epoch
unfolding queued
epoch-queued source deadline (queue, ok id) s = refl
epoch-queued source deadline (queue, err e) s = refl

epoch-enqueue_until :
    (scope : Scope) (key : Text) (ttl : Option ℕ) (now : ℕ) (source : Text) (o : Option ℕ)
    (s : State)
    → (enqueue_until scope key ttl now source o s).0.lock_epoch ≡ s.lock_epoch
unfolding enqueue_until
epoch-enqueue_until scope key ttl now source none s = refl
epoch-enqueue_until scope key ttl now source (some deadline) s = epoch-queued source deadline _ s

epoch-ask :
    (scope : Scope) (key : Text) (ttl : Option ℕ) (now : ℕ) (r : Result Text) (s : State)
    → (ask scope key ttl now r s).0.lock_epoch ≡ s.lock_epoch
unfolding ask
epoch-ask scope key ttl now (err e) s = refl
epoch-ask scope key ttl now (ok source) s = epoch-enqueue_until scope key ttl now source _ s

epoch-answer_or_ask :
    (backing : Backing) (scope : Scope) (key : Text) (ttl : Option ℕ) (now : ℕ)
    (r : GrantTable × Option Text) (s : State)
    → (answer_or_ask backing scope key ttl now r s).0.lock_epoch ≡ s.lock_epoch
unfolding answer_or_ask
epoch-answer_or_ask backing scope key ttl now (grants, some source) s = refl
epoch-answer_or_ask backing scope key ttl now (grants, none) s =
    epoch-ask scope key ttl now (backing.locate key) (record s { grants = grants })

epoch-begin_job :
    (k : Kernel) (now : ℕ) (s : State) → (begin_job k now s).0.lock_epoch ≡ s.lock_epoch
unfolding begin_job upkeep
epoch-begin_job k now s =
    let s' : State = upkeep k now s in
    ap (λ a. a.3) (authority-take_ready now (Queue.next_ready now s'.queue) s')
    ∙ ap (λ a. a.3) (authority-sweep_queue now s)

epoch-completed :
    (job : Job) (d : Decrypted) (now : ℕ) (r : Queue × Bool) (s : State)
    → (completed job d now r s).lock_epoch ≡ s.lock_epoch
unfolding completed insert_grant
epoch-completed job d now (queue, true) s = refl
epoch-completed job d now (queue, false) s = refl

epoch-deny_stale :
    (k : Kernel) (job : Job) (now : ℕ) (s : State)
    → (deny_stale k job now s).lock_epoch ≡ s.lock_epoch
unfolding deny_stale
epoch-deny_stale k job now s = ground arith

epoch-finish_job :
    (k : Kernel) (job : Job) (result : DecryptResult) (now : ℕ) (s : State)
    → (finish_job k job result now s).lock_epoch ≡ s.lock_epoch
unfolding finish_job finish_decrypted
epoch-finish_job k job (decrypted d) now s =
    let s' : State = deny_stale k job now (kill_active job.id s) in
    epoch-completed job d now (Queue.complete job.id job.generation now s'.queue) s'
    ∙ epoch-deny_stale k job now (kill_active job.id s)
    ∙ ap (λ a. a.3) (authority-kill_active job.id s)
epoch-finish_job k job (decrypt_failed e) now s = ap (λ a. a.3) (authority-kill_active job.id s)

-- The epoch only goes up, and stays a 64-bit number.
abbrev pub Climbs : ℕ → ℕ → Type 0
Climbs a b = (a ≤ b) × (b ≤ u64_max)

stays : (a b : ℕ) → a ≤ u64_max → b ≡ a → Climbs a b
stays a b fits same = (omega (arith, same), omega (arith, fits, same))

pub lock-climbs : (a : ℕ) → a ≤ u64_max → Climbs a (saturating_add a 1)
lock-climbs a fits = (ground arith, ground arith)

pub Step-Climbs :
    {s s' : State} {j j' : Option Job}
    → Step s j s' j'
    → s.lock_epoch ≤ u64_max
    → Climbs s.lock_epoch s'.lock_epoch
unfolding register unregister resolve_access begin_approval
Step-Climbs {s} (registers token_hex id root) fits =
    stays _ _ fits (epoch-register (parse_hex token_hex) id root s)
Step-Climbs {s} (unregisters id) fits = stays _ _ fits refl
Step-Climbs {s} (denies id now) fits = stays _ _ fits (ap (λ a. a.3) (authority-deny id now s))
Step-Climbs {s} (locks now) fits =
    let (a, b, c, d, e) = lock_forgets now s in
    let (up, bounded) = lock-climbs s.lock_epoch fits in
    (omega (arith, up, e), omega (arith, bounded, e))
Step-Climbs {s} (resolves k access caller) fits =
    stays _ _ fits
      (epoch-resolve k (parse_name access.key) (parse_token access.token_hex) access.tty caller s)
Step-Climbs {s} (asks backing scope key force_fresh ttl looked now) fits = stays _ _ fits (
    epoch-answer_or_ask backing scope key ttl now
      (use_grant backing scope key force_fresh (lookup scope key looked s.grants) s.grants) s)
Step-Climbs {s} (polls source id deadline now) fits =
    stays _ _ fits (ap (λ a. a.3) (authority-poll source id deadline now s))
Step-Climbs {s} (authorizes rounds entropy cap epoch_before now decision) fits =
    stays _ _ fits (
      ap (λ a. a.3) (authority-finish_authorization rounds entropy cap epoch_before now decision s))
Step-Climbs {s} (redeems hex cap now) fits =
    stays _ _ fits (ap (λ a. a.3) (authority-redeem hex cap now s))
Step-Climbs (begins {s} k now) fits = stays _ _ fits (epoch-begin_job k now s)
Step-Climbs (starts {s} {job} group) fits =
    stays _ _ fits (ap (λ a. a.3) (authority-started job group s))
Step-Climbs (finishes {s} {job} k result now) fits =
    stays _ _ fits (epoch-finish_job k job result now s)
