-- ===== src/Broker/Safety.antt =====
-- What holds of the broker (crates/secrets/src/server.rs) at all times, from the daemon's start on.
use forward.Prelude.{◌≤◌, ◌<◌, ◌≡◌, Option, none, some, List, [], ◌∷◌, arith, Text, All, u64_max}
use forward.Grants.Registry.{Registration, registration}
use forward.Grants.Registry as Registry
use forward.Requests.Queue as Queue
use forward.Requests.Types.{decrypting}
use forward.Requests.Sound.{IsSound, new-IsSound}
use forward.Requests.Updates.{All-map}
use forward.Requests.Moves.{IsSettled, held_of}
use forward.Broker.State.{State, Config, new}
use forward.Broker.Worker.{Job}
use forward.Broker.Registered.{IsRegistered, longest}
use forward.Broker.Authority.{
  authority-deny, authority-poll, authority-finish_authorization, authority-redeem,
  authority-started,
}
use forward.Broker.Invariant.{
  SafeAt, same_authority, register-SafeAt, unregister-SafeAt, lock-SafeAt, resolve_access-SafeAt,
  begin_approval-SafeAt, begin_job-SafeAt,
}
use forward.Broker.Finish.{finish_job-SafeAt}
use forward.Broker.Queued.{held_by}
use forward.Broker.Settled.{Step-Turns}
use forward.Broker.System.{
  Step, registers, unregisters, denies, locks, resolves, asks, polls, authorizes, redeems, begins,
  starts, finishes, Reachable, start, after,
}

All-both {ℓ κ μ} :
    {A : Type ℓ} (P : A → Type κ) (Q : A → Type μ) (xs : List A)
    → All P xs
    → All Q xs
    → All (λ x. P x × Q x) xs
All-both P Q [] p q = tt
All-both P Q (x ∷ xs) p q = ((p.0, q.0), All-both P Q xs p.1 q.1)

Step-SafeAt :
    {s s' : State} {j j' : Option Job} → Step s j s' j' → IsSound s.queue → SafeAt s → SafeAt s'
Step-SafeAt {s} (registers token_hex id root) q h = register-SafeAt token_hex id root s h
Step-SafeAt {s} (unregisters id) q h = unregister-SafeAt id s h
Step-SafeAt {s} {s'} (denies id now) q h = same_authority s s' (authority-deny id now s) h
Step-SafeAt {s} (locks now) q h = lock-SafeAt now s h
Step-SafeAt {s} (resolves k access caller) q h = resolve_access-SafeAt k access caller s h
Step-SafeAt {s} (asks backing scope key force_fresh ttl looked now) q h =
    begin_approval-SafeAt backing scope key force_fresh ttl looked now s h
Step-SafeAt {s} {s'} (polls source id deadline now) q h =
    same_authority s s' (authority-poll source id deadline now s) h
Step-SafeAt {s} {s'} (authorizes rounds entropy cap epoch now decision) q h =
    same_authority s s' (authority-finish_authorization rounds entropy cap epoch now decision s) h
Step-SafeAt {s} {s'} (redeems hex cap now) q h =
    same_authority s s' (authority-redeem hex cap now s) h
Step-SafeAt {s} (begins k now) q h = begin_job-SafeAt k now s h
Step-SafeAt {s} {s'} (starts {job = job} group) q h =
    same_authority s s' (authority-started job group s) h
Step-SafeAt {s} (finishes {job = job} k result now) q h = finish_job-SafeAt k job result now s q h

-- While request ids are left, the state is safe and the queue settled with the worker.
record IsLegal (s : State) (j : Option Job) : Type 0 where
  pub safe : SafeAt s
  pub settled : IsSettled (held_by j) s.queue

record IsReached (s : State) (j : Option Job) : Type 0 where
  pub fits : s.queue.next_id ≤ u64_max
  pub legal : s.queue.next_id < u64_max → IsLegal s j

start-IsReached :
    (boot_id instance_id : Text) (config : Config) → IsReached (new boot_id instance_id config) none
unfolding new Registry.new Queue.new
start-IsReached boot_id instance_id config =
    let sound = new-IsSound _ in
    record {
      fits = sound.fits;
      legal = λ room. record {
        safe = record { distinct = tt; all_registered = tt; bounded = tt };
        settled = record { sound = sound; all_held = tt };
      };
    }

after-IsReached :
    {s s' : State} {j j' : Option Job} → Step s j s' j' → IsReached s j → IsReached s' j'
after-IsReached {s} {s'} step r =
    let moves = Step-Turns step in
    let (up, fits) = moves.grows r.fits in
    record {
      fits = fits;
      legal = λ room.
          let before = r.legal (omega arith) in
          record {
            safe = Step-SafeAt step before.settled.sound before.safe;
            settled = moves.keeps room before.settled;
          };
    }

module _ (boot_id instance_id : Text) (config : Config) where
  reached : {s : State} {j : Option Job} → Reachable boot_id instance_id config s j → IsReached s j
  reached start = start-IsReached boot_id instance_id config
  reached (after before step) = after-IsReached step (reached before)

-- However the steps of the broker interleave from the daemon's start on, while request ids are left:
-- every grant is for a terminal or for a session token that is registered at that time, and lives no
-- longer than the longer of the two lifetimes that the configuration allows.
pub grants-IsRegistered :
    (boot_id instance_id : Text) (config : Config) (s : State) (j : Option Job)
    → Reachable boot_id instance_id config s j
    → s.queue.next_id < u64_max
    → All (λ g. IsRegistered s.registry g.scope × (g.ttl ≤ longest s.config)) s.grants
grants-IsRegistered boot_id instance_id config s j path room =
    let safe = ((reached boot_id instance_id config path).legal room).safe in
    All-both _ _ s.grants safe.all_registered safe.bounded

-- However the steps of the broker interleave from the daemon's start on, while request ids are left:
-- a request is being decrypted only if it is the one in flight and the worker holds the job of its
-- current generation. So none is, when the worker is idle.
pub decrypting_is_held :
    (boot_id instance_id : Text) (config : Config) (s : State) (j : Option Job)
    → Reachable boot_id instance_id config s j
    → s.queue.next_id < u64_max
    → All
        (λ r.
          r.state ≡ decrypting
          → (s.queue.inflight ≡ some r.id) × (held_by j ≡ held_of r.id r.generation))
        s.queue.requests
decrypting_is_held boot_id instance_id config s j path room =
    let settled = ((reached boot_id instance_id config path).legal room).settled in
    All-map s.queue.requests (λ r both d. (both.0 d, both.1 d))
      (All-both _ _ s.queue.requests settled.sound.single settled.all_held)

pub queue-IsSound :
    (boot_id instance_id : Text) (config : Config) (s : State) (j : Option Job)
    → Reachable boot_id instance_id config s j
    → s.queue.next_id < u64_max
    → IsSound s.queue
queue-IsSound boot_id instance_id config s j path room =
    ((reached boot_id instance_id config path).legal room).settled.sound
