-- ===== src/Broker/Approval.antt =====
-- crates/secrets/src/server/approval.rs: how a request waits for its grant. `await_approval` gives the
-- lock away while it waits: what it does before is `begin_approval`, and each round of its loop is
-- `poll_approval`.
use forward.Prelude.{
  ℕ, Bool, false, ◌==◌, holds, ℕ_discrete, Option, none, some, if◌then◌else◌, Text, find,
  checked_add, checked_duration_since,
}
use forward.ErrCode.{ErrCode, Result, ok, err, internal, timeout, denied, ◌>>=◌}
use forward.Containment.{Kernel, PinnedPeer}
use forward.Hex.{parse_hex}
use forward.Names.{parse_name}
use forward.Grants.Scope.{Scope, SessionToken, kind}
use forward.Grants.Table.{FileIdentity, GrantTable, lookup, revoke, remaining_secs}
use forward.Grants.Registry as Registry
use forward.Requests.Types as Types
use forward.Requests.Types.{Queue, RequestState}
use forward.Requests.Queue as Queue
use forward.Broker.State.{State, kill_active, Outcome, fields, bytes, refused, granted, Decision}

pub record Access : Type 0 where
  pub key : Text
  pub token_hex : Option Text
  pub tty : Option Text
  pub requested_ttl : Option ℕ

-- What `HumanStore::identity` and `HumanStore::locate` find in the files at that time.
pub record Backing : Type 0 where
  pub identity : Text → Result FileIdentity
  pub locate : Text → Result Text

pub data Approval : Type 0 where
  approved : Option Text → Option ℕ → Approval
  rejected : ErrCode → Approval
  incomplete : ErrCode → ℕ → Approval

-- A thread that waits holds the source, the id and the deadline of its request.
pub data Progress : Type 0 where
  finished : Approval → Progress
  waiting : Text → ℕ → ℕ → Progress

unfoldable pub FileIdentity-discrete : Discrete FileIdentity
FileIdentity-discrete = hlevel (ℕ_discrete)

abbrev pub is_unchanged : Result FileIdentity → FileIdentity → Bool
is_unchanged (ok current) identity = holds (FileIdentity-discrete current identity)
is_unchanged (err e) identity = false

unfoldable pub parse_token : Option Text → Result (Option SessionToken)
parse_token none = ok none
parse_token (some token_hex) = parse_hex token_hex >>= λ token. ok (some token)

unfoldable pub resolved :
    Text → Registry.Registry × Result Scope → State → State × Result (Scope × Text)
resolved key (registry, result) s =
    (record s { registry = registry }, result >>= λ scope. ok (scope, key))

unfoldable pub resolve_parsed :
    Kernel
    → Result Text
    → Result (Option SessionToken)
    → Option Text
    → PinnedPeer
    → State
    → State × Result (Scope × Text)
resolve_parsed k (err e) token path caller s = (s, err e)
resolve_parsed k (ok key) (err e) path caller s = (s, err e)
resolve_parsed k (ok key) (ok token) path caller s =
    resolved key (Registry.resolve k token path (some caller) s.registry) s

unfoldable pub resolve_access : Kernel → Access → PinnedPeer → State → State × Result (Scope × Text)
resolve_access k access caller s =
    resolve_parsed k (parse_name access.key) (parse_token access.token_hex) access.tty caller s

-- The grant that answers at once, by its source; a grant that is stale, or that a fresh approval
-- replaces, is revoked.
unfoldable pub use_grant :
    Backing
    → Scope
    → Text
    → Bool
    → Option (Text × Text × FileIdentity)
    → GrantTable
    → GrantTable × Option Text
use_grant backing scope key force_fresh none grants = (grants, none)
use_grant backing scope key force_fresh (some (value, source, identity)) grants =
    if is_unchanged (backing.identity key) identity
    then (if force_fresh then (revoke scope key grants, none) else (grants, some source))
    else (revoke scope key grants, none)

unfoldable pub queued : Text → ℕ → Queue × Result ℕ → State → State × Progress
queued source deadline (queue, ok id) s = (record s { queue = queue }, waiting source id deadline)
queued source deadline (queue, err e) s = (record s { queue = queue }, finished (rejected e))

unfoldable pub enqueue_until :
    Scope → Text → Option ℕ → ℕ → Text → Option ℕ → State → State × Progress
enqueue_until scope key requested_ttl now source none s = (s, finished (rejected internal))
enqueue_until scope key requested_ttl now source (some deadline) s =
    queued source deadline (Queue.enqueue scope key now requested_ttl s.queue) s

unfoldable pub ask : Scope → Text → Option ℕ → ℕ → Result Text → State → State × Progress
ask scope key requested_ttl now (err e) s = (s, finished (rejected e))
ask scope key requested_ttl now (ok source) s =
    enqueue_until scope key requested_ttl now source (checked_add now s.config.request_ttl) s

unfoldable pub answer_or_ask :
    Backing → Scope → Text → Option ℕ → ℕ → GrantTable × Option Text → State → State × Progress
answer_or_ask backing scope key requested_ttl now (grants, some source) s =
    (record s { grants = grants }, finished (approved (some source) none))
answer_or_ask backing scope key requested_ttl now (grants, none) s =
    ask scope key requested_ttl now (backing.locate key) (record s { grants = grants })

-- `looked` is the time of the lookup, and `now` that of the request.
unfoldable pub begin_approval :
    Backing → Scope → Text → Bool → Option ℕ → ℕ → ℕ → State → State × Progress
begin_approval backing scope key force_fresh requested_ttl looked now s =
    answer_or_ask backing scope key requested_ttl now
      (use_grant backing scope key force_fresh (lookup scope key looked s.grants) s.grants) s

unfoldable pub failure_of : Option (ℕ × ErrCode) → ErrCode
failure_of none = internal
failure_of (some (id, error)) = error

unfoldable pub expire_waiting : Text → ℕ → ℕ → ℕ → Option ℕ → State → State × Progress
expire_waiting source id deadline now (some remaining) s = (s, waiting source id deadline)
expire_waiting source id deadline now none s = (
  kill_active id (record s { queue = (Queue.timeout id now s.queue).0 }),
  finished (incomplete timeout id),
)

unfoldable pub poll_state : Text → ℕ → ℕ → ℕ → Option RequestState → State → State × Progress
poll_state source id deadline now none s = (s, finished (incomplete internal id))
poll_state source id deadline now (some Types.granted) s =
    (s, finished (approved (some source) (some id)))
poll_state source id deadline now (some Types.denied) s = (s, finished (incomplete denied id))
poll_state source id deadline now (some Types.timed_out) s = (s, finished (incomplete timeout id))
poll_state source id deadline now (some Types.failed) s =
    (s, finished (incomplete (failure_of (find (λ f. f.0 == id) s.failures)) id))
poll_state source id deadline now (some Types.pending) s =
    expire_waiting source id deadline now (checked_duration_since deadline now) s
poll_state source id deadline now (some Types.decrypting) s =
    expire_waiting source id deadline now (checked_duration_since deadline now) s

unfoldable pub poll_approval : Text → ℕ → ℕ → ℕ → State → State × Progress
poll_approval source id deadline now s =
    poll_state source id deadline now (Queue.state_of id s.queue) s

unfoldable pub released : Option (Text × Text × FileIdentity) → Outcome
released none = refused internal
released (some (value, source, identity)) = bytes value

unfoldable pub granted_fields : Option ℕ → Scope → Text → ℕ → GrantTable → Outcome
granted_fields none scope key now grants = fields (granted none)
granted_fields (some ttl) scope key now grants =
    fields (granted (remaining_secs scope key now grants))

-- The end of `dispatch_access`, under a lock of its own.
unfoldable pub conclude : Access → Bool → Scope → Text → ℕ → Approval → State → Decision
unfolding released granted_fields
conclude access return_value scope key now (rejected e) s = record {
  outcome = refused e;
  scope_kind = some (kind scope);
  source = none;
  request_id = none;
}
conclude access return_value scope key now (incomplete e id) s = record {
  outcome = refused e;
  scope_kind = some (kind scope);
  source = none;
  request_id = some id;
}
conclude access return_value scope key now (approved source id) s = record {
  outcome =
      if return_value
      then released (lookup scope key now s.grants)
      else granted_fields access.requested_ttl scope key now s.grants;
  scope_kind = some (kind scope);
  source = source;
  request_id = id;
}
