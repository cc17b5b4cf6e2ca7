-- ===== src/Broker/Settled.antt =====
-- The queue under the steps of the broker (crates/secrets/src/server/): the worker holds the one
-- request that is being decrypted.
use mathlib.Core.Path.{subst}
use forward.Prelude.{
  sym, ap, ℕ, ◌≡◌, refl, Bool, true, false, Option, none, some, arith, Text, inl, inr, Bool-cases,
}
use forward.Containment.{Kernel}
use forward.Hex.{parse_hex}
use forward.Names.{parse_name, parse_capability}
use forward.Grants.Scope.{Scope}
use forward.Grants.Table.{lookup}
use forward.Requests.Types.{Queue}
use forward.Requests.Queue as Queue
use forward.Requests.Moves.{held_of, Moves, stays, then-Moves, deny-Moves}
use forward.Requests.Decrypts.{fail-Moves, complete-Moves, mark-Moves, refused-Moves}
use forward.Broker.State.{State, kill_active}
use forward.Broker.Control.{register, unregister, lock}
use forward.Broker.Approval.{resolve_access, parse_token, begin_approval, use_grant, poll_approval}
use forward.Broker.Capability.{finish_authorization, redeem}
use forward.Broker.Worker.{
  Job, DecryptResult, decrypted, decrypt_failed, Decrypted, begin_job, upkeep, take_ready, marked,
  job_of, decrypt_started, finish_job, finish_decrypted, deny_stale, completed, insert_grant,
}
use forward.Broker.Finish.{queue-kill_active, is_stale}
use forward.Broker.System.{
  Step, registers, unregisters, denies, locks, resolves, asks, polls, authorizes, redeems, begins,
  starts, finishes,
}
use forward.Broker.Queued.{
  held_by, Turns, same_queue, register_token-queue, deny-queue, running-queue, resolve-queue,
  answer-queue, poll-queue, finish_outcome-queue, redeem-queue, upkeep-queue,
}

job_of-Turns :
    (id g now : ℕ) (o : Option (Scope × Text × Option ℕ)) (q : Queue) (s : State)
    → Moves none q (held_of id g) s.queue
    → Moves none q (held_by (job_of id g now o s).1) (job_of id g now o s).0.queue
unfolding job_of
job_of-Turns id g now none q s m = then-Moves m (fail-Moves id g now s.queue)
job_of-Turns id g now (some (scope, key, ttl)) q s m = m

marked-Turns :
    (id now : ℕ) (r : Queue × Option ℕ) (s : State)
    → Queue.mark_decrypting id now s.queue ≡ r
    → Turns s none (marked id now r s).0 (marked id now r s).1
unfolding marked
marked-Turns id now (q, none) s same =
    subst (λ x. Moves none s.queue none x.0) same
      (refused-Moves id now s.queue (ap (λ x. x.1) same))
marked-Turns id now (q, some g) s same =
    job_of-Turns id g now (Queue.describe id q) s.queue (record s { queue = q })
      (subst (λ x. Moves none s.queue (held_of id g) x.0) same
        (mark-Moves id now g s.queue (ap (λ x. x.1) same)))

take-Turns :
    (now : ℕ) (o : Option ℕ) (s : State)
    → Turns s none (take_ready now o s).0 (take_ready now o s).1
unfolding take_ready
take-Turns now none s = stays none s.queue
take-Turns now (some id) s = marked-Turns id now (Queue.mark_decrypting id now s.queue) s refl

completed-queue :
    (job : Job) (d : Decrypted) (now : ℕ) (r : Queue × Bool) (s : State)
    → (completed job d now r s).queue ≡ r.0
unfolding completed insert_grant
completed-queue job d now (q, true) s = refl
completed-queue job d now (q, false) s = refl

stale-queue :
    (k : Kernel) (job : Job) (now : ℕ) (s : State)
    → Moves (held_by (some job)) s.queue (held_by (some job)) (deny_stale k job now s).queue
unfolding deny_stale
stale-queue k job now s = elim (Bool-cases (is_stale k job s)) [
  | inl stale ↦ rw stale (deny-Moves (held_by (some job)) job.id now s.queue)
  | inr current ↦ rw current (stays (held_by (some job)) s.queue)
]

finish_decrypted-Turns :
    (k : Kernel) (job : Job) (d : Decrypted) (now : ℕ) (s : State)
    → Turns s (some job) (finish_decrypted k job d now s) none
unfolding finish_decrypted
finish_decrypted-Turns k job d now s =
    let s' = deny_stale k job now s in
    subst (Moves (held_by (some job)) s.queue none)
      (sym (completed-queue job d now (Queue.complete job.id job.generation now s'.queue) s'))
      (then-Moves (stale-queue k job now s) (complete-Moves job.id job.generation now s'.queue))

finish-Turns :
    (k : Kernel) (job : Job) (result : DecryptResult) (now : ℕ) (s : State)
    → Turns s (some job) (finish_job k job result now s) none
unfolding finish_job
finish-Turns k job (decrypted d) now s =
    then-Moves
      (same_queue (held_by (some job)) s.queue (kill_active job.id s).queue
        (queue-kill_active job.id s))
      (finish_decrypted-Turns k job d now (kill_active job.id s))
finish-Turns k job (decrypt_failed e) now s =
    then-Moves
      (same_queue (held_by (some job)) s.queue (kill_active job.id s).queue
        (queue-kill_active job.id s))
      (fail-Moves job.id job.generation now (kill_active job.id s).queue)

started-queue : (job : Job) (group : ℕ) (s : State) → (decrypt_started job group s).queue ≡ s.queue
unfolding decrypt_started
started-queue job group s = ground arith

-- Every step moves the queue by its operations.
pub Step-Turns : {s s' : State} {j j' : Option Job} → Step s j s' j' → Turns s j s' j'
unfolding register unregister lock resolve_access begin_approval poll_approval finish_authorization
    redeem begin_job decrypt_started
Step-Turns {s} {j = j} (registers token_hex id root) =
    same_queue (held_by j) s.queue _
      (register_token-queue (held_by j) (parse_hex token_hex) id root s)
Step-Turns {s} {j = j} (unregisters id) = stays (held_by j) s.queue
Step-Turns {s} {j = j} (denies id now) = deny-queue (held_by j) id now s
Step-Turns {s} {j = j} (locks now) = running-queue (held_by j) s.active_decrypt now _
Step-Turns {s} {j = j} (resolves k access caller) = same_queue (held_by j) s.queue _ (
    resolve-queue (held_by j) k (parse_name access.key) (parse_token access.token_hex) access.tty
      caller s)
Step-Turns {s} {j = j} (asks backing scope key force_fresh ttl looked now) =
    answer-queue (held_by j) backing scope key ttl now
      (use_grant backing scope key force_fresh (lookup scope key looked s.grants) s.grants) s
Step-Turns {s} {j = j} (polls source id deadline now) =
    poll-queue (held_by j) source id deadline now (Queue.state_of id s.queue) s
Step-Turns {s} {j = j} (authorizes rounds entropy cap epoch now decision) =
    same_queue (held_by j) s.queue _ (
      finish_outcome-queue (held_by j) rounds entropy cap epoch now decision.outcome
        decision.request_id s)
Step-Turns {s} {j = j} (redeems hex cap now) =
    same_queue (held_by j) s.queue _ (redeem-queue (held_by j) hex (parse_capability cap) now s)
Step-Turns {s} (begins k now) =
    then-Moves (upkeep-queue none k now s)
      (take-Turns now (Queue.next_ready now (upkeep k now s).queue) (upkeep k now s))
Step-Turns {s} (starts {job = job} group) =
    same_queue (held_by (some job)) s.queue _ (started-queue job group s)
Step-Turns {s} (finishes {job = job} k result now) = finish-Turns k job result now s
