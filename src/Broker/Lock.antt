-- ===== src/Broker/Lock.antt =====
-- LOCK (crates/secrets/src/server/dispatch/control.rs), and a decrypt that it overtakes.
use forward.Prelude.{
  sym, ap, ◌∙◌, ℕ, ◌<◌, ◌≡◌, ◌≢◌, refl, Option, none, some, [], arith, u64_max, saturating_add,
}
use forward.Receipts as Receipts
use forward.CapabilityGrants as CapabilityGrants
use forward.Grants.Table.{revoke_all}
use forward.Requests.Sound.{IsSound, deny-IsSound}
use forward.Broker.State.{State, ActiveDecrypt, kill_group}
use forward.Broker.Control.{lock, deny_running}
use forward.Broker.Worker.{Job, DecryptResult, finish_job}
use forward.Broker.Authority.{authority-deny_running}
use forward.Broker.Finish.{locked_out}

running-IsSound :
    (active : Option ActiveDecrypt) (now : ℕ) (s : State)
    → IsSound s.queue
    → IsSound (deny_running active now s).queue
unfolding deny_running kill_group
running-IsSound none now s h = h
running-IsSound (some active) now s h = deny-IsSound active.id now s.queue h

running-tables :
    (active : Option ActiveDecrypt) (now : ℕ) (s : State)
    → ((deny_running active now s).receipts ≡ s.receipts)
      × ((deny_running active now s).capability_grants ≡ s.capability_grants)
      × ((deny_running active now s).registry ≡ s.registry)
unfolding deny_running kill_group
running-tables none now s = (refl, refl, refl)
running-tables (some active) now s = (refl, refl, refl)

-- LOCK leaves no grant, no receipt and no capability grant; the registrations stay, and the epoch
-- goes up by one, up to the largest 64-bit number.
pub lock_forgets :
    (now : ℕ) (s : State)
    → ((lock now s).0.grants ≡ [])
      × ((lock now s).0.receipts ≡ [])
      × ((lock now s).0.capability_grants ≡ [])
      × ((lock now s).0.registry ≡ s.registry)
      × ((lock now s).0.lock_epoch ≡ saturating_add s.lock_epoch 1)
unfolding lock revoke_all Receipts.clear CapabilityGrants.clear
lock_forgets now s =
    let locked : State = record s {
      grants = [];
      receipts = [];
      capability_grants = [];
      lock_epoch = saturating_add s.lock_epoch 1;
    } in
    let kept = authority-deny_running s.active_decrypt now locked in
    let (receipts, capability_grants, registry) = running-tables s.active_decrypt now locked in
    (ap (λ a. a.1) kept, receipts, capability_grants, registry, ap (λ a. a.3) kept)

lock-IsSound : (now : ℕ) (s : State) → IsSound s.queue → IsSound (lock now s).0.queue
unfolding lock
lock-IsSound now s h = running-IsSound s.active_decrypt now _ h

next_epoch : (epoch : ℕ) → epoch < u64_max → saturating_add epoch 1 ≢ epoch
next_epoch epoch h = ground arith

-- A decrypt that LOCK overtakes leaves nothing behind: where the job began in the epoch that the lock
-- ended, no grant is left once the job has finished, however it finishes.
pub lock_overtakes :
    (k : _) (job : Job) (result : DecryptResult) (now later : ℕ) (s : State)
    → IsSound s.queue
    → s.lock_epoch < u64_max
    → job.lock_epoch ≡ s.lock_epoch
    → (finish_job k job result later (lock now s).0).grants ≡ []
lock_overtakes k job result now later s h room same =
    let (grants, receipts, capability_grants, registry, epoch) = lock_forgets now s in
    locked_out k job result later (lock now s).0 (lock-IsSound now s h)
      (λ e. next_epoch s.lock_epoch room (sym epoch ∙ e ∙ same))
    ∙ grants
