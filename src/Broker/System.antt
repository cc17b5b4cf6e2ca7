-- ===== src/Broker/System.antt =====
-- The steps of the broker: what a thread of crates/secrets/src/server.rs does while it holds the lock
-- once. The order of the steps is any that the lock may give; the worker is a single thread, which
-- holds at most one job.
use forward.Prelude.{ℕ, Bool, Option, none, some, Text}
use forward.Containment.{Kernel, PinnedPeer}
use forward.Grants.Scope.{Scope}
use forward.Receipts.{Entropy}
use forward.Broker.State.{State, Config, Decision, new}
use forward.Broker.Control.{register, unregister, deny, lock}
use forward.Broker.Approval.{Access, Backing, resolve_access, begin_approval, poll_approval}
use forward.Broker.Capability.{finish_authorization, redeem}
use forward.Broker.Worker.{Job, DecryptResult, begin_job, decrypt_started, finish_job}

pub data Step : State → Option Job → State → Option Job → Type 0 where
  registers :
      {s : State} {j : Option Job} (token_hex id : Text) (root : PinnedPeer)
      → Step s j (register token_hex id root s).0 j
  unregisters : {s : State} {j : Option Job} (id : Text) → Step s j (unregister id s).0 j
  denies : {s : State} {j : Option Job} (id now : ℕ) → Step s j (deny id now s).0 j
  locks : {s : State} {j : Option Job} (now : ℕ) → Step s j (lock now s).0 j
  resolves :
      {s : State} {j : Option Job} (k : Kernel) (access : Access) (caller : PinnedPeer)
      → Step s j (resolve_access k access caller s).0 j
  asks :
      {s : State} {j : Option Job} (backing : Backing) (scope : Scope) (key : Text)
      (force_fresh : Bool) (requested_ttl : Option ℕ) (looked now : ℕ)
      → Step s j (begin_approval backing scope key force_fresh requested_ttl looked now s).0 j
  polls :
      {s : State} {j : Option Job} (source : Text) (id deadline now : ℕ)
      → Step s j (poll_approval source id deadline now s).0 j
  authorizes :
      {s : State} {j : Option Job} (rounds : ℕ) (entropy : Entropy) (cap : Text)
      (epoch_before now : ℕ) (decision : Decision)
      → Step s j (finish_authorization rounds entropy cap epoch_before now decision s).0 j
  redeems :
      {s : State} {j : Option Job} (receipt_hex expected_cap : Text) (now : ℕ)
      → Step s j (redeem receipt_hex expected_cap now s).0 j
  begins :
      {s : State} (k : Kernel) (now : ℕ) → Step s none (begin_job k now s).0 (begin_job k now s).1
  starts :
      {s : State} {job : Job} (process_group : ℕ)
      → Step s (some job) (decrypt_started job process_group s) (some job)
  finishes :
      {s : State} {job : Job} (k : Kernel) (result : DecryptResult) (now : ℕ)
      → Step s (some job) (finish_job k job result now s) none

-- What the daemon can come to from its start.
pub data Reachable (boot_id instance_id : Text) (config : Config)
    : State → Option Job → Type 0 where
  start : Reachable boot_id instance_id config (new boot_id instance_id config) none
  after :
      {s s' : State} {j j' : Option Job}
      → Reachable boot_id instance_id config s j
      → Step s j s' j'
      → Reachable boot_id instance_id config s' j'
