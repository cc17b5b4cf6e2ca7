-- ===== src/Broker/Worker.antt =====
-- crates/secrets/src/server/worker.rs: the one thread that decrypts. It holds the lock twice in a
-- round: `begin_job` picks the request, `finish_job` records what came of it. In between the decryptor
-- runs, and calls `decrypt_started`.
use forward.Prelude.{
  ℕ, ◌*◌, Bool, false, not, ◌||◌, ◌==◌, leb, Option, none, some, List, [], ◌∷◌, ◌++◌, if◌then◌else◌,
  Text, retain, second, is_some,
}
use forward.ErrCode.{ErrCode}
use forward.Containment.{Kernel, is_alive}
use forward.Grants.Scope.{Scope, session, tty}
use forward.Grants.Table.{FileIdentity, insert, revoke_expired, revoke_missing_ttys}
use forward.Grants.Registry.{registration, Registration}
use forward.Requests.Types.{Queue, RequestState, is_decrypting}
use forward.Requests.Queue as Queue
use forward.Receipts as Receipts
use forward.CapabilityGrants as CapabilityGrants
use forward.Broker.State.{State, kill_active}

-- `min`
abbrev pub min_duration : ℕ → ℕ → ℕ
min_duration a b = if leb a b then a else b

unfoldable pub effective_grant_ttl : Option ℕ → ℕ → ℕ → ℕ
effective_grant_ttl none max_grant max_requested_grant = max_grant
effective_grant_ttl (some secs) max_grant max_requested_grant =
    min_duration (secs * second) max_requested_grant

pub record Job : Type 0 where
  pub id : ℕ
  pub scope : Scope
  pub key : Text
  pub generation : ℕ
  pub lock_epoch : ℕ
  pub requested_ttl : Option ℕ

pub record Decrypted : Type 0 where
  pub value : Text
  pub source : Text
  pub identity : FileIdentity

-- `Result<Decrypted, ErrCode>`
pub data DecryptResult : Type 0 where
  decrypted : Decrypted → DecryptResult
  decrypt_failed : ErrCode → DecryptResult

unfoldable pub kill_all : List ℕ → State → State
kill_all [] s = s
kill_all (id ∷ ids) s = kill_all ids (kill_active id s)

unfoldable pub sweep_queue : ℕ → State → State
sweep_queue now s =
    let (queue, expired) = Queue.sweep_timeouts now s.queue in
    kill_all expired (record s { queue = queue })

-- The upkeep of each round, before the worker looks for a request.
unfoldable pub upkeep : Kernel → ℕ → State → State
upkeep k now s =
    let s' = sweep_queue now s in
    let queue = Queue.prune now s'.queue in
    record s' {
      grants = revoke_missing_ttys k.path_exists (revoke_expired now s'.grants).0;
      queue = queue;
      receipts = Receipts.sweep now s'.receipts;
      capability_grants = CapabilityGrants.sweep now s'.capability_grants;
      failures = retain (λ f. is_some (Queue.state_of f.0 queue)) s'.failures;
    }

unfoldable pub job_of : ℕ → ℕ → ℕ → Option (Scope × Text × Option ℕ) → State → State × Option Job
job_of id generation now none s = (record s { queue = Queue.fail id now s.queue }, none)
job_of id generation now (some (scope, key, requested_ttl)) s = (
  s,
  some (record {
    id = id;
    scope = scope;
    key = key;
    generation = generation;
    lock_epoch = s.lock_epoch;
    requested_ttl = requested_ttl;
  }),
)

unfoldable pub marked : ℕ → ℕ → Queue × Option ℕ → State → State × Option Job
marked id now (queue, none) s = (record s { queue = queue }, none)
marked id now (queue, some generation) s =
    job_of id generation now (Queue.describe id queue) (record s { queue = queue })

unfoldable pub take_ready : ℕ → Option ℕ → State → State × Option Job
take_ready now none s = (s, none)
take_ready now (some id) s = marked id now (Queue.mark_decrypting id now s.queue) s

unfoldable pub begin_job : Kernel → ℕ → State → State × Option Job
begin_job k now s = let s' = upkeep k now s in take_ready now (Queue.next_ready now s'.queue) s'

abbrev pub is_some_decrypting : Option RequestState → Bool
is_some_decrypting none = false
is_some_decrypting (some state) = is_decrypting state

-- The decryptor's process runs: it is recorded, or killed where its request is over.
unfoldable pub decrypt_started : Job → ℕ → State → State
decrypt_started job process_group s =
    if is_some_decrypting (Queue.state_of job.id s.queue)
    then record s { active_decrypt = some (record { id = job.id; process_group = process_group }) }
    else record s { killed = process_group ∷ s.killed }

unfoldable pub is_active_root : Kernel → Option Registration → Bool
is_active_root k none = false
is_active_root k (some registration) = is_alive k registration.root

unfoldable pub session_is_active : Kernel → Scope → State → Bool
session_is_active k (session token) s = is_active_root k (registration token s.registry)
session_is_active k (tty path boot_id) s = k.path_exists path

-- A job from before a LOCK, or for a session that is gone, is denied first.
unfoldable pub deny_stale : Kernel → Job → ℕ → State → State
deny_stale k job now s =
    if not (s.lock_epoch == job.lock_epoch) || not (session_is_active k job.scope s)
    then record s { queue = (Queue.deny job.id now s.queue).0 }
    else s

unfoldable pub insert_grant : Job → Decrypted → ℕ → State → State
insert_grant job d now s = record s {
  grants =
      insert job.scope job.key d.value now (record { source = d.source; identity = d.identity })
        (effective_grant_ttl job.requested_ttl s.config.max_grant s.config.max_requested_grant)
        s.grants;
}

unfoldable pub completed : Job → Decrypted → ℕ → Queue × Bool → State → State
completed job d now (queue, success) s =
    let s' = record s { queue = queue } in if success then insert_grant job d now s' else s'

unfoldable pub finish_decrypted : Kernel → Job → Decrypted → ℕ → State → State
finish_decrypted k job d now s =
    let s' = deny_stale k job now s in
    completed job d now (Queue.complete job.id job.generation now s'.queue) s'

-- The clock is read several times here; one time stands for them.
unfoldable pub finish_job : Kernel → Job → DecryptResult → ℕ → State → State
finish_job k job (decrypted d) now s = finish_decrypted k job d now (kill_active job.id s)
finish_job k job (decrypt_failed e) now s =
    let s' = kill_active job.id s in
    record s' { queue = Queue.fail job.id now s'.queue; failures = s'.failures ++ (job.id, e) ∷ [] }
