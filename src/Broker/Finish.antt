-- ===== src/Broker/Finish.antt =====
-- The end of a decrypt (crates/secrets/src/server/worker.rs), and the broker from its start on.
use mathlib.Core.Path.{subst}
use forward.Prelude.{
  sym, ap, ◌∙◌, ℕ, ◌≡◌, ◌≢◌, refl, Bool, true, false, not, ◌||◌, ◌==◌, Option, none, some, arith,
  inl, inr, Bool-cases, is_some_and,
}
use forward.Containment.{Kernel}
use forward.Grants.Scope.{Scope, session, tty}
use forward.Grants.Registry.{Registration, registration}
use forward.Requests.Types.{Queue}
use forward.Requests.Queue as Queue
use forward.Requests.Sound.{IsSound}
use forward.Requests.Stale.{complete-deny}
use forward.Broker.State.{State, ActiveDecrypt, kill_active, kill_group}
use forward.Broker.Worker.{
  Job, Decrypted, DecryptResult, decrypted, decrypt_failed, finish_job, finish_decrypted, completed,
  insert_grant, deny_stale, session_is_active, is_active_root,
}
use forward.Broker.Registered.{IsRegistered, insert-IsSafe}
use forward.Broker.Authority.{authority, authority-kill_active}
use forward.Broker.Invariant.{SafeAt, same_authority, effective-longest}

-- A job is stale when the broker was locked since it began, or its session or terminal is gone.
abbrev pub is_stale : Kernel → Job → State → Bool
is_stale k job s = not (s.lock_epoch == job.lock_epoch) || not (session_is_active k job.scope s)

root_registered :
    (k : Kernel) (o : Option Registration)
    → is_active_root k o ≡ true
    → (e : Registration) × (o ≡ some e)
unfolding is_active_root
root_registered k none h = absurd (cc h)
root_registered k (some e) h = (e, refl)

scope-IsRegistered :
    (k : Kernel) (scope : Scope) (s : State)
    → session_is_active k scope s ≡ true
    → IsRegistered s.registry scope
unfolding session_is_active
scope-IsRegistered k (session token) s h = root_registered k (registration token s.registry) h
scope-IsRegistered k (tty path boot_id) s h = tt

active_of : (a b : Bool) → (a || not b) ≡ false → b ≡ true
active_of a b h = ground arith

completed-refused :
    (job : Job) (d : Decrypted) (now : ℕ) (r : Queue × Bool) (s : State)
    → r.1 ≡ false
    → authority (completed job d now r s) ≡ authority s
unfolding completed
completed-refused job d now (q, true) s h = absurd (cc h)
completed-refused job d now (q, false) s h = refl

completed-SafeAt :
    (job : Job) (d : Decrypted) (now : ℕ) (r : Queue × Bool) (s : State)
    → IsRegistered s.registry job.scope
    → SafeAt s
    → SafeAt (completed job d now r s)
unfolding completed insert_grant
completed-SafeAt job d now (q, true) s known h =
    insert-IsSafe job.scope job.key d.value now _ _ s.registry s.grants s.config known
      (effective-longest job.requested_ttl s.config) h
completed-SafeAt job d now (q, false) s known h = h

-- A stale job leaves the registry and the grants as they are.
pub stale-authority :
    (k : Kernel) (job : Job) (d : Decrypted) (now : ℕ) (s : State)
    → is_stale k job s ≡ true
    → IsSound s.queue
    → authority (finish_decrypted k job d now s) ≡ authority s
unfolding finish_decrypted deny_stale
stale-authority k job d now s stale sound = rw stale (
    completed-refused job d now _ (record s { queue = (Queue.deny job.id now s.queue).0 })
      (complete-deny job.id job.generation now now s.queue sound))

current_steps :
    (k : Kernel) (job : Job) (d : Decrypted) (now : ℕ) (s : State)
    → is_stale k job s ≡ false
    → finish_decrypted k job d now s
      ≡ completed job d now (Queue.complete job.id job.generation now s.queue) s
unfolding finish_decrypted deny_stale
current_steps k job d now s current = rw current refl

finish_decrypted-SafeAt :
    (k : Kernel) (job : Job) (d : Decrypted) (now : ℕ) (s : State)
    → IsSound s.queue
    → SafeAt s
    → SafeAt (finish_decrypted k job d now s)
finish_decrypted-SafeAt k job d now s sound h = elim (Bool-cases (is_stale k job s)) [
  | inl stale ↦
      same_authority s (finish_decrypted k job d now s) (stale-authority k job d now s stale sound)
        h
  | inr current ↦ subst SafeAt (sym (current_steps k job d now s current)) (
      completed-SafeAt job d now (Queue.complete job.id job.generation now s.queue) s
        (scope-IsRegistered k job.scope s (
          active_of (not (s.lock_epoch == job.lock_epoch)) (session_is_active k job.scope s)
            current))
        h)
]

queue-kill_group :
    (active : Option ActiveDecrypt) (s : State) → (kill_group active s).queue ≡ s.queue
unfolding kill_group
queue-kill_group none s = refl
queue-kill_group (some active) s = refl

pub queue-kill_active : (id : ℕ) (s : State) → (kill_active id s).queue ≡ s.queue
unfolding kill_active
queue-kill_active id s =
    elim (Bool-cases (is_some_and s.active_decrypt (λ active. active.id == id))) [
      | inl it ↦ rw it (queue-kill_group s.active_decrypt s)
      | inr other ↦ rw other refl
    ]

pub finish_job-SafeAt :
    (k : Kernel) (job : Job) (result : DecryptResult) (now : ℕ) (s : State)
    → IsSound s.queue
    → SafeAt s
    → SafeAt (finish_job k job result now s)
unfolding finish_job
finish_job-SafeAt k job (decrypted d) now s sound h =
    finish_decrypted-SafeAt k job d now (kill_active job.id s)
      (subst IsSound (sym (queue-kill_active job.id s)) sound)
      (same_authority s (kill_active job.id s) (authority-kill_active job.id s) h)
finish_job-SafeAt k job (decrypt_failed e) now s sound h =
    same_authority s (kill_active job.id s) (authority-kill_active job.id s) h

-- A decrypt that was running when the broker was locked installs no grant: where the epoch is not
-- the one that the job began in, the grants are, after the job, what they were before it.
pub locked_out :
    (k : Kernel) (job : Job) (result : DecryptResult) (now : ℕ) (s : State)
    → IsSound s.queue
    → s.lock_epoch ≢ job.lock_epoch
    → (finish_job k job result now s).grants ≡ s.grants
unfolding finish_job
locked_out k job (decrypted d) now s sound locked =
    let killed = authority-kill_active job.id s in
    let other : (s.lock_epoch == job.lock_epoch) ≡ false = ground arith in
    let other' : ((kill_active job.id s).lock_epoch == job.lock_epoch) ≡ false =
      ap (λ a. a.3 == job.lock_epoch) killed ∙ other in
    ap (λ a. a.1)
      (stale-authority k job d now (kill_active job.id s) (rw other' refl)
          (subst IsSound (sym (queue-kill_active job.id s)) sound)
        ∙ killed)
locked_out k job (decrypt_failed e) now s sound locked =
    ap (λ a. a.1) (authority-kill_active job.id s)
