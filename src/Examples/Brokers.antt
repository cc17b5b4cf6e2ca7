-- ===== src/Examples/Brokers.antt =====
-- The broker's theorems at concrete states.
use forward.Prelude.{
  ℕ, suc, ◌≤◌, ◌<◌, ◌≡◌, ◌≢◌, ◌++◌, length, refl, Bool, true, false, Option, none, some, List, [],
  ◌∷◌, arith, Text, codes, All, second, u64_max, ◌*◌, saturating_add,
}
use forward.ErrCode.{ok}
use forward.Containment.{Kernel, PinnedPeer, descends_from, descends_from_pid}
use forward.Hex.{encode, parse_hex, from_pairs, from_pair}
use forward.Names.{parse_name, is_name}
use forward.Grants.Scope.{Scope, SessionToken, session, verified_session}
use forward.Grants.Table.{lookup, insert, FileIdentity}
use forward.Grants.Registry.{Registration, registration, resolve}
use forward.Requests.Types.{decrypting}
use forward.Requests.Queue as Queue
use forward.Requests.Sound.{new-IsSound}
use forward.Requests.Moves.{held_of}
use forward.Receipts.{Entropy, mint, mint_loop, sweep, receipt}
use forward.Broker.State.{State, Config, Decision, new, fields, granted, receipt_text}
use forward.Broker.Control.{register, registered, register_token, lock}
use forward.Broker.Approval.{
  Access, Backing, finished, approved, resolve_access, begin_approval, use_grant, answer_or_ask,
  ask, enqueue_until, queued, resolve_parsed, resolved, parse_token,
}
use forward.Broker.Capability.{finish_outcome, finish_fresh, minted_outcome}
use forward.Broker.Worker.{
  Job, DecryptResult, decrypted, begin_job, finish_job, upkeep, sweep_queue, kill_all, take_ready,
  marked, job_of,
}
use forward.Broker.Registered.{IsRegistered, longest}
use forward.Broker.System.{Reachable, start, after, registers, asks, begins}
use forward.Broker.Queued.{held_by}
use forward.Broker.Safety.{grants-IsRegistered, decrypting_is_held}
use forward.Broker.Lock.{lock_forgets}
use forward.Broker.Overtaken.{stop, step, lock_voids_job, lock_voids_authorization}
use forward.Broker.Dispatch.{answered, dispatch}
use forward.Broker.Lanes.{other_lanes_never_wait}
use forward.Broker.Frame.{read_frame, answers, parse_frame, ServedAs, parse_frame-answers}
use forward.Broker.Subscribers.{
  Hub, HubReached, start, after, attaches, locks, publishes, attach, publish_current,
  subscriber_capacity, subscribers_are_told,
}
use forward.Protocol.Request as Request
use forward.Protocol.Request.{parse_request}
use forward.Broker.Approved.{answered_later}
use forward.Requests.Flight.{Describes}
use forward.Requests.Types as Types
use forward.Broker.Release.{resolve_access_session, at_once, receipt_needs_approval}
use forward.Examples.Data.{receipt_bytes, agent, key_a, small_kernel, root_entry, origin_a, file_a}

abbrev config : Config
config = record {
  max_grant = 100 * second;
  max_requested_grant = 200 * second;
  request_ttl = 60 * second;
  cooldown = 5 * second;
  max_pending_per_scope = 2;
}

abbrev fresh : State
fresh = new (codes "boot") (codes "instance") config

abbrev one_file : Backing
one_file = record { identity = λ key. ok file_a; locate = λ key. ok (codes "store") }

abbrev hex : Text
hex = encode receipt_bytes

abbrev with_session : State
with_session = (register hex (codes "s1") 1 fresh).0

abbrev asked : State
asked = (begin_approval one_file (session receipt_bytes) key_a false none 0 0 with_session).0

abbrev busy : State
busy = (begin_job small_kernel 1 asked).0

abbrev held : Option Job
held = (begin_job small_kernel 1 asked).1

busy-Reachable : Reachable (codes "boot") (codes "instance") config busy held
busy-Reachable =
    after
      (after (after start (registers hex (codes "s1") 1))
        (asks one_file (session receipt_bytes) key_a false none 0 0))
      (begins small_kernel 1)

busy_room : busy.queue.next_id < u64_max
unfolding register register_token registered parse_hex encode from_pairs begin_approval use_grant
    lookup answer_or_ask ask enqueue_until queued Queue.enqueue Queue.coalesce_or_admit Queue.admit
    Queue.push_request Queue.new begin_job upkeep sweep_queue kill_all take_ready marked job_of
    Queue.sweep_timeouts Queue.sweep_requests Queue.finish_all Queue.prune Queue.next_ready
    Queue.mark_decrypting Queue.start_decrypt Queue.started Queue.describe new from_pair
    forward.Grants.Registry.register forward.Grants.Registry.new forward.Prelude.Text-discrete
    forward.Grants.Scope.Scope-discrete forward.Grants.Table.revoke_tokens
busy_room = let next : busy.queue.next_id ≡ 2 = refl in omega arith

grants-IsRegistered_example :
    All (λ g. IsRegistered busy.registry g.scope × (g.ttl ≤ longest busy.config)) busy.grants
grants-IsRegistered_example =
    grants-IsRegistered (codes "boot") (codes "instance") config busy held busy-Reachable busy_room

decrypting_is_held_example :
    All
      (λ r.
        r.state ≡ decrypting
        → (busy.queue.inflight ≡ some r.id) × (held_by held ≡ held_of r.id r.generation))
      busy.queue.requests
decrypting_is_held_example =
    decrypting_is_held (codes "boot") (codes "instance") config busy held busy-Reachable busy_room

with_grant : State
with_grant = record fresh {
  grants = insert agent key_a (codes "secret") 0 origin_a (60 * second) [];
  registry = record { sessions = root_entry ∷ []; agent_ttys = []; boot_id = codes "boot" };
}

lock_forgets_example :
    ((lock 5 with_grant).0.grants ≡ [])
    × ((lock 5 with_grant).0.receipts ≡ [])
    × ((lock 5 with_grant).0.capability_grants ≡ [])
    × ((lock 5 with_grant).0.registry ≡ with_grant.registry)
    × ((lock 5 with_grant).0.lock_epoch ≡ saturating_add with_grant.lock_epoch 1)
lock_forgets_example = lock_forgets 5 with_grant

abbrev secret : DecryptResult
secret = decrypted (record { value = codes "secret"; source = codes "store"; identity = file_a })

abbrev device : Entropy
device = record { opens = true; draw = λ k. some receipt_bytes }

-- The job that the worker takes there.
abbrev begun : Job
begun = record {
  id = 1;
  scope = session receipt_bytes;
  key = key_a;
  generation = 1;
  lock_epoch = 0;
  requested_ttl = none;
}

asked-Reachable : Reachable (codes "boot") (codes "instance") config asked none
asked-Reachable =
    after (after start (registers hex (codes "s1") 1))
      (asks one_file (session receipt_bytes) key_a false none 0 0)

lock_voids_job_example :
    (finish_job small_kernel begun secret 9 (lock 5 busy).0).grants ≡ (lock 5 busy).0.grants
unfolding register register_token registered parse_hex encode from_pairs begin_approval use_grant
    lookup answer_or_ask ask enqueue_until queued Queue.enqueue Queue.coalesce_or_admit Queue.admit
    Queue.push_request Queue.new begin_job upkeep sweep_queue kill_all take_ready marked job_of
    Queue.sweep_timeouts Queue.sweep_requests Queue.finish_all Queue.prune Queue.next_ready
    Queue.mark_decrypting Queue.start_decrypt Queue.started Queue.describe new from_pair
    forward.Grants.Registry.register forward.Grants.Registry.new forward.Prelude.Text-discrete
    forward.Grants.Scope.Scope-discrete forward.Grants.Table.revoke_tokens lock
    forward.Broker.Control.deny_running
lock_voids_job_example =
    let epoch : (lock 5 busy).0.lock_epoch ≡ 1 = refl in
    let next : (lock 5 busy).0.queue.next_id ≡ 2 = refl in
    lock_voids_job (codes "boot") (codes "instance") config small_kernel small_kernel begun secret 1
      5 9 asked busy (lock 5 busy).0 asked-Reachable refl (step (begins small_kernel 1) stop) stop
      (omega arith) (omega arith)

lock_voids_authorization_example :
    (finish_outcome 1 device
      (codes "deploy")
      0
      5
      (fields (granted none))
      (some 4)
      (lock 5 fresh).0).1
    ≢ some (receipt_text hex)
unfolding new lock forward.Broker.Control.deny_running
lock_voids_authorization_example =
    let epoch : (lock 5 fresh).0.lock_epoch ≡ 1 = refl in
    lock_voids_authorization (codes "boot") (codes "instance") config 1 device (codes "deploy") hex
      5 5 (fields (granted none)) (some 4) fresh fresh (lock 5 fresh).0 none none none start stop
      stop (omega arith) (λ t e. cc)

other_lanes_never_wait_example :
    (decision : Decision) × ((dispatch Request.lock 1 5 busy).1 ≡ answered decision)
unfolding Request.request_lane
other_lanes_never_wait_example = other_lanes_never_wait Request.lock 1 5 busy (λ e. cc)

abbrev lock_line : Text
lock_line = codes "LOCK"

parse_frame-answers_example :
    (frame : Text) × (read_frame (answers (codes "LO" ∷ (codes "CK" ++ 10 ∷ []) ∷ [])) []
      ≡ some frame)
    × ServedAs (parse_request (λ t. true) lock_line) (parse_frame (λ t. true) frame)
parse_frame-answers_example =
    let short : length lock_line ≡ 4 = refl in
    parse_frame-answers (λ t. true) (codes "LO" ∷ (codes "CK" ++ 10 ∷ []) ∷ []) lock_line []
      ((λ e. cc), ((λ e. cc), tt)) refl (omega arith)

-- Two subscribers, and a LOCK that was published.
abbrev hub : Hub
hub = record {
  subscribers =
      publish_current small_kernel (λ peer. true) 1
        (attach small_kernel true 2 0 (attach small_kernel true 1 0 []).0).0;
  epoch = 1;
  owed = 0;
}

hub-HubReached : HubReached hub
hub-HubReached =
    after
      (after (after (after start (attaches small_kernel true 1)) (attaches small_kernel true 2))
        locks)
      (publishes small_kernel (λ peer. true) refl)

subscribers_are_told_example :
    All (λ s. s.told ≡ hub.epoch) hub.subscribers × (length hub.subscribers ≤ subscriber_capacity)
subscribers_are_told_example = subscribers_are_told hub hub-HubReached refl

abbrev access : Access
access = record { key = key_a; token_hex = some hex; tty = none; requested_ttl = none }

resolve_access_session_example :
    (token : SessionToken) × (entry : Registration) × (parse_hex hex ≡ ok token)
    × (parse_name key_a ≡ ok key_a)
    × (session receipt_bytes ≡ session token)
    × (registration token with_session.registry ≡ some entry)
    × (descends_from small_kernel 2 entry.root ≡ true)
unfolding register register_token registered parse_hex encode from_pairs from_pair new
    resolve_access resolve_parsed resolved parse_token parse_name is_name resolve descends_from
    descends_from_pid forward.Containment.pid forward.Prelude.Text-discrete
    forward.Grants.Registry.register forward.Grants.Registry.new
resolve_access_session_example =
    resolve_access_session small_kernel access hex 2 with_session (session receipt_bytes) key_a refl
      refl

at_once_example :
    (false ≡ false)
    × (value : Text) × (from : Text) × (identity : FileIdentity) × (lookup agent key_a 5
          with_grant.grants
        ≡ some (value, from, identity))
    × (one_file.identity key_a ≡ ok identity)
    × (some (codes "store") ≡ some from)
unfolding with_grant new begin_approval use_grant lookup insert answer_or_ask
    forward.Prelude.Text-discrete forward.Grants.Scope.Scope-discrete
    forward.Broker.Approval.FileIdentity-discrete
at_once_example = at_once one_file agent key_a false none 5 5 with_grant (some (codes "store")) refl

-- The request of `asked` as AUTHORIZE waits for it, once the worker has decrypted its key.
abbrev ready : State
ready = finish_job small_kernel begun secret 2 busy

abbrev answer : Decision
answer = record {
  outcome = receipt_text hex;
  scope_kind = some verified_session;
  source = some (codes "store");
  request_id = some 1;
}

receipt_needs_approval_example :
    (source : Option Text) × (request : ℕ) × (approved (some (codes "store")) (some 1)
      ≡ approved source (some request))
    × Describes (session receipt_bytes) key_a (
        Queue.describe request
          (begin_approval one_file
            (session receipt_bytes)
            key_a
            true
            none
            0
            0
            with_session).0.queue)
    × (Queue.state_of request ready.queue ≡ some Types.granted)
    × (fresh.lock_epoch ≡ 0)
    × ((mint 1 device (codes "deploy") 5 fresh.receipts).1 ≡ receipt hex)
unfolding register register_token registered parse_hex encode from_pairs begin_approval use_grant
    lookup answer_or_ask ask enqueue_until queued Queue.enqueue Queue.coalesce_or_admit Queue.admit
    Queue.push_request Queue.new begin_job upkeep sweep_queue kill_all take_ready marked job_of
    Queue.sweep_timeouts Queue.sweep_requests Queue.finish_all Queue.prune Queue.next_ready
    Queue.mark_decrypting Queue.start_decrypt Queue.started Queue.describe new from_pair
    forward.Grants.Registry.register forward.Grants.Registry.new forward.Prelude.Text-discrete
    forward.Grants.Scope.Scope-discrete forward.Grants.Table.revoke_tokens finish_outcome
    finish_fresh mint mint_loop sweep minted_outcome forward.Broker.Approval.poll_approval
    forward.Broker.Approval.poll_state Queue.state_of finish_job
    forward.Broker.Worker.finish_decrypted forward.Broker.Worker.completed Queue.complete
    forward.Broker.Worker.deny_stale forward.Broker.State.kill_active
    forward.Broker.Worker.session_is_active forward.Broker.Worker.is_active_root registration
    forward.Containment.is_alive forward.Containment.pid forward.Broker.Worker.insert_grant
    Queue.finish forward.Broker.Capability.finish_authorization forward.Broker.Approval.conclude
    forward.Broker.Approval.granted_fields forward.Grants.Scope.kind
receipt_needs_approval_example =
    receipt_needs_approval 1 device (codes "deploy") 0 5 one_file access (session receipt_bytes)
      key_a 0 0 3 4 with_session ready ready fresh (approved (some (codes "store")) (some 1)) answer
      hex (new-IsSound _) (answered_later {deadline = 60 * second} refl refl) refl refl
