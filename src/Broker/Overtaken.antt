-- ===== src/Broker/Overtaken.antt =====
-- A LOCK (crates/secrets/src/server/dispatch/control.rs) anywhere in a run of the broker, and what
-- began before it: the worker's job and an AUTHORIZE that waits.
use forward.Prelude.{
  ℕ, ◌≤◌, ◌<◌, ◌≡◌, ◌≢◌, ap, ◌∙◌, Option, none, some, arith, Text, u64_max, saturating_add,
}
use forward.Containment.{Kernel}
use forward.Grants.Scope.{Scope}
use forward.Requests.Types.{Queue}
use forward.Requests.Queue as Queue
use forward.Receipts.{Entropy}
use forward.Broker.State.{State, Config, Outcome, receipt_text, new}
use forward.Broker.Control.{lock}
use forward.Broker.Capability.{finish_outcome}
use forward.Broker.Worker.{
  Job, DecryptResult, begin_job, upkeep, take_ready, marked, job_of, finish_job,
}
use forward.Broker.System.{Step, Reachable, start, after, locks}
use forward.Broker.Authority.{authority-sweep_queue}
use forward.Broker.Finish.{locked_out}
use forward.Broker.Lock.{lock_forgets}
use forward.Broker.Waits.{receipt_needs_fields}
use forward.Broker.Epoch.{Climbs, Step-Climbs, lock-climbs}
use forward.Broker.Safety.{queue-IsSound}

-- Any number of steps.
pub data Run : State → Option Job → State → Option Job → Type 0 where
  stop : {s : State} {j : Option Job} → Run s j s j
  step :
      {s s' s'' : State} {j j' j'' : Option Job}
      → Step s j s' j'
      → Run s' j' s'' j''
      → Run s j s'' j''

Run-Climbs :
    {s s' : State} {j j' : Option Job}
    → Run s j s' j'
    → s.lock_epoch ≤ u64_max
    → Climbs s.lock_epoch s'.lock_epoch
Run-Climbs stop fits = (omega arith, fits)
Run-Climbs (step one run) fits =
    let (up, fits') = Step-Climbs one fits in
    let (more, fits'') = Run-Climbs run fits' in (omega (arith, up, more), fits'')

module _ (boot_id instance_id : Text) (config : Config) where
  reach_on :
      {s s' : State} {j j' : Option Job}
      → Reachable boot_id instance_id config s j
      → Run s j s' j'
      → Reachable boot_id instance_id config s' j'
  reach_on path stop = path
  reach_on path (step one run) = reach_on (after path one) run

  epoch-fits :
      {s : State} {j : Option Job}
      → Reachable boot_id instance_id config s j
      → s.lock_epoch ≤ u64_max
  unfolding new
  epoch-fits start = omega arith
  epoch-fits (after path one) = (Step-Climbs one (epoch-fits path)).1

-- An epoch that a LOCK ended does not come back, while epochs are left.
lock_ends :
    {s s1 s2 : State} {j j1 j2 : Option Job} (now : ℕ)
    → s.lock_epoch ≤ u64_max
    → Run s j s1 j1
    → Run (lock now s1).0 j1 s2 j2
    → s2.lock_epoch < u64_max
    → s2.lock_epoch ≢ s.lock_epoch
lock_ends {s1 = s1} now fits before behind room same =
    let (up, fits1) = Run-Climbs before fits in
    let (a, b, c, d, e) = lock_forgets now s1 in
    let (more, bounded) = lock-climbs s1.lock_epoch fits1 in
    let (up2, fits2) = Run-Climbs behind (omega (arith, bounded, e)) in
    next (omega (arith, up2, e, room)) (omega (arith, up, up2, e, same))
  where
    next :
        saturating_add s1.lock_epoch 1 < u64_max
        → saturating_add s1.lock_epoch 1 ≤ s1.lock_epoch
        → ⊥
    next h k = ground arith

job_of-epoch :
    (id generation now : ℕ) (o : Option (Scope × Text × Option ℕ)) (s : State) (job : Job)
    → (job_of id generation now o s).1 ≡ some job
    → job.lock_epoch ≡ s.lock_epoch
unfolding job_of
job_of-epoch id generation now none s job h = absurd (cc h)
job_of-epoch id generation now (some (scope, key, ttl)) s job h = ground arith

marked-epoch :
    (id now : ℕ) (r : Queue × Option ℕ) (s : State) (job : Job)
    → (marked id now r s).1 ≡ some job
    → job.lock_epoch ≡ s.lock_epoch
unfolding marked
marked-epoch id now (queue, none) s job h = absurd (cc h)
marked-epoch id now (queue, some generation) s job h =
    job_of-epoch id generation now (Queue.describe id queue) (record s { queue = queue }) job h

take_ready-epoch :
    (now : ℕ) (o : Option ℕ) (s : State) (job : Job)
    → (take_ready now o s).1 ≡ some job
    → job.lock_epoch ≡ s.lock_epoch
unfolding take_ready
take_ready-epoch now none s job h = absurd (cc h)
take_ready-epoch now (some id) s job h =
    marked-epoch id now (Queue.mark_decrypting id now s.queue) s job h

begin_job-epoch :
    (k : Kernel) (now : ℕ) (s : State) (job : Job)
    → (begin_job k now s).1 ≡ some job
    → job.lock_epoch ≡ s.lock_epoch
unfolding begin_job upkeep
begin_job-epoch k now s job h =
    let s' : State = upkeep k now s in
    take_ready-epoch now (Queue.next_ready now s'.queue) s' job h
    ∙ ap (λ a. a.3) (authority-sweep_queue now s)

module _ (boot_id instance_id : Text) (config : Config) where
  -- A LOCK anywhere between the beginning of the worker's job and its end, whatever else happens
  -- before and after it, keeps the job from adding a grant: the grants are the same after the job has
  -- finished, however it finishes. This holds from every state that the broker can come to, while
  -- request ids and epochs are left.
  pub lock_voids_job :
      (k k' : Kernel) (job : Job) (result : DecryptResult) (began locked ended : ℕ)
      (s s1 s2 : State)
      → Reachable boot_id instance_id config s none
      → (begin_job k began s).1 ≡ some job
      → Run s none s1 (some job)
      → Run (lock locked s1).0 (some job) s2 (some job)
      → s2.lock_epoch < u64_max
      → s2.queue.next_id < u64_max
      → (finish_job k' job result ended s2).grants ≡ s2.grants
  lock_voids_job k k' job result began locked ended s s1 s2 path begun before behind room ids =
      let fits = epoch-fits boot_id instance_id config path in
      let locked_path = after (reach_on boot_id instance_id config path before) (locks locked) in
      let sound =
        queue-IsSound boot_id instance_id config s2 (some job)
          (reach_on boot_id instance_id config locked_path behind) ids in
      let ended_epoch : s2.lock_epoch ≢ s.lock_epoch = lock_ends locked fits before behind room in
      locked_out k' job result ended s2 sound
        (λ e. ended_epoch (e ∙ begin_job-epoch k began s job begun))

  -- A LOCK anywhere between the beginning of an AUTHORIZE, which notes the epoch, and its end keeps it
  -- from answering with a receipt, whatever the approval answered, if that was no receipt itself, and
  -- while epochs are left.
  pub lock_voids_authorization :
      (rounds : ℕ) (entropy : Entropy) (cap hex : Text) (locked ended : ℕ) (outcome : Outcome)
      (id : Option ℕ) (s s1 s2 : State) (j j1 j2 : Option Job)
      → Reachable boot_id instance_id config s j
      → Run s j s1 j1
      → Run (lock locked s1).0 j1 s2 j2
      → s2.lock_epoch < u64_max
      → ((t : Text) → outcome ≢ receipt_text t)
      → (finish_outcome rounds entropy cap s.lock_epoch ended outcome id s2).1
        ≢ some (receipt_text hex)
  lock_voids_authorization rounds entropy cap hex locked ended outcome id s s1 s2 j j1 j2 path
        before behind room other h =
      let fits = epoch-fits boot_id instance_id config path in
      let (granted, named, same, minted) =
        receipt_needs_fields rounds entropy cap s.lock_epoch ended outcome id s2 hex other h in
      lock_ends locked fits before behind room same
