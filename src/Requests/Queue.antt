-- ===== src/Requests/Queue.antt =====
-- crates/secrets/src/requests/queue.rs and expiry.rs: the approval queue. A method that takes
-- `&mut self` returns the new queue.
use forward.Prelude.{
  ℕ, Bool, true, false, not, ◌&&◌, ◌||◌, Option, none, some, List, [], ◌∷◌, ◌++◌, ltb, leb, ◌==◌,
  if◌then◌else◌, find, any, retain, count_if, update_first, Text, text_eq, strip_prefix, is_some,
  is_some_and, saturating_add, saturating_double, checked_duration_since,
}
use forward.ErrCode.{Result, ok, err, too_many_pending}
use forward.Grants.Scope.{Scope, scope_eq}
use forward.Requests.Types.{
  RequestState, pending, decrypting, granted, denied, timed_out, failed, QueueLimits,
  PendingRequest, Queue, is_active, is_pending, is_decrypting,
}

unfoldable pub new : QueueLimits → Queue
new limits = record {
  requests = [];
  limits = limits;
  next_id = 1;
  generation = 0;
  inflight = none;
  last_finished = none;
}

-- `key.as_str().starts_with(CAPABILITY_KEY_PREFIX)`
abbrev pub is_capability_key : Text → Bool
is_capability_key key = is_some (strip_prefix (67 ∷ 65 ∷ 80 ∷ 95 ∷ []) key)

abbrev pub has_id : ℕ → PendingRequest → Bool
has_id id request = request.id == id

-- An identical request that is waiting or decrypting.
abbrev pub coalesces : Scope → Text → PendingRequest → Bool
coalesces scope key request =
    scope_eq request.scope scope && text_eq request.key key && is_active request.state

-- The requests that count against the limit of a new one.
abbrev pub counts : Bool → Scope → PendingRequest → Bool
counts capability scope request =
    scope_eq request.scope scope
    && (not capability || is_capability_key request.key)
    && is_active request.state

abbrev pub pending_limit : Bool → QueueLimits → ℕ
pending_limit capability limits = if capability then 1 else limits.max_pending_per_scope

unfoldable pub push_request : Scope → Text → ℕ → Option ℕ → Queue → Queue × Result ℕ
push_request scope key now requested_ttl q = (
  record q {
    next_id = saturating_add q.next_id 1;
    requests =
        q.requests
        ++ record {
          id = q.next_id;
          scope = scope;
          key = key;
          state = pending;
          generation = 0;
          created = now;
          requested_ttl = requested_ttl;
        }
          ∷ [];
  },
  ok q.next_id,
)

unfoldable pub admit : Scope → Text → ℕ → Option ℕ → Queue → Queue × Result ℕ
admit scope key now requested_ttl q =
    let capability = is_capability_key key in
    if leb (pending_limit capability q.limits) (count_if (counts capability scope) q.requests)
    then (q, err too_many_pending)
    else push_request scope key now requested_ttl q

-- A request for a plain key joins an identical one; a capability's never does.
unfoldable pub coalesce_or_admit :
    Option PendingRequest → Scope → Text → ℕ → Option ℕ → Queue → Queue × Result ℕ
coalesce_or_admit none scope key now requested_ttl q = admit scope key now requested_ttl q
coalesce_or_admit (some existing) scope key now requested_ttl q = (q, ok existing.id)

unfoldable pub enqueue : Scope → Text → ℕ → Option ℕ → Queue → Queue × Result ℕ
unfolding coalesce_or_admit admit
enqueue scope key now requested_ttl q =
    coalesce_or_admit
      (if is_capability_key key then none else find (coalesces scope key) q.requests) scope key now
      requested_ttl q

-- The hardware was used less than a cooldown ago.
abbrev pub is_cooling : ℕ → Queue → Bool
is_cooling now q =
    is_some_and q.last_finished
      (λ last. is_some_and (checked_duration_since now last) (λ e. ltb e q.limits.cooldown))

abbrev pub id_of : Option PendingRequest → Option ℕ
id_of none = none
id_of (some request) = some request.id

unfoldable pub next_ready : ℕ → Queue → Option ℕ
next_ready now q =
    if is_some q.inflight
    then none
    else if is_cooling now q
    then none
    else id_of (find (λ request. is_pending request.state) q.requests)

-- The request is decrypting and in flight, under a new generation.
unfoldable pub started : ℕ → Queue → Queue × Option ℕ
started id q = (
  record q {
    generation = saturating_add q.generation 1;
    requests =
        update_first (has_id id)
          (λ r. record r { state = decrypting; generation = saturating_add q.generation 1 })
          q.requests;
    inflight = some id;
  },
  some (saturating_add q.generation 1),
)

unfoldable pub start_decrypt : ℕ → Option PendingRequest → Queue → Queue × Option ℕ
start_decrypt id none q = (q, none)
start_decrypt id (some request) q = if is_pending request.state then started id q else (q, none)

unfoldable pub mark_decrypting : ℕ → ℕ → Queue → Queue × Option ℕ
mark_decrypting id now q =
    if is_some q.inflight || is_cooling now q
    then (q, none)
    else start_decrypt id (find (has_id id) q.requests) q

abbrev pub clear_inflight : ℕ → Option ℕ → Option ℕ
clear_inflight id none = none
clear_inflight id (some other) = if other == id then none else some other

unfoldable pub finish : ℕ → ℕ → Queue → Queue
finish id now q = record q { inflight = clear_inflight id q.inflight; last_finished = some now }

abbrev pub is_current : ℕ → ℕ → PendingRequest → Bool
is_current id generation request =
    request.id == id && request.generation == generation && is_decrypting request.state

abbrev pub set_state : RequestState → PendingRequest → PendingRequest
set_state state request = record request { state = state }

unfoldable pub complete : ℕ → ℕ → ℕ → Queue → Queue × Bool
complete id generation now q =
    if any (is_current id generation) q.requests
    then (
      finish id now
          (record q { requests = update_first (has_id id) (set_state granted) q.requests }),
      true,
    )
    else (finish id now q, false)

unfoldable pub fail : ℕ → ℕ → Queue → Queue
fail id now q =
    finish id now (record q { requests = update_first (has_id id) (set_state failed) q.requests })

-- The request is over, and a decrypt that started for it is out of date.
abbrev pub end_with : RequestState → PendingRequest → PendingRequest
end_with state request = record request {
  state = state;
  generation = saturating_add request.generation 1;
}

unfoldable pub ended : RequestState → ℕ → ℕ → Queue → Queue
ended state id now q =
    finish id now (record q { requests = update_first (has_id id) (end_with state) q.requests })

-- `timeout` and `deny` differ in the state alone.
unfoldable pub end_request : RequestState → ℕ → ℕ → Option PendingRequest → Queue → Queue × Bool
end_request state id now none q = (q, false)
end_request state id now (some request) q =
    if is_active request.state then (ended state id now q, true) else (q, false)

unfoldable pub timeout : ℕ → ℕ → Queue → Queue × Bool
unfolding end_request
timeout id now q = end_request timed_out id now (find (has_id id) q.requests) q

-- `deny` reads the clock itself; the time is an argument here.
unfoldable pub deny : ℕ → ℕ → Queue → Queue × Bool
unfolding end_request
deny id now q = end_request denied id now (find (has_id id) q.requests) q

-- The request has waited for longer than a request may.
abbrev pub waited_too_long : ℕ → ℕ → PendingRequest → Bool
waited_too_long ttl now request =
    is_active request.state
    && is_some_and (checked_duration_since now request.created) (λ elapsed. ltb ttl elapsed)

abbrev pub expire_request : ℕ → ℕ → PendingRequest → PendingRequest
expire_request ttl now request =
    if waited_too_long ttl now request then end_with timed_out request else request

-- The first loop of `sweep_timeouts`: the requests, and the ids that expired.
unfoldable pub sweep_requests : ℕ → ℕ → List PendingRequest → List PendingRequest × List ℕ
sweep_requests ttl now [] = ([], [])
sweep_requests ttl now (request ∷ rest) =
    let (swept, expired) = sweep_requests ttl now rest in
    (
      expire_request ttl now request ∷ swept,
      (if waited_too_long ttl now request then request.id ∷ expired else expired),
    )

-- Its second loop.
unfoldable pub finish_all : List ℕ → ℕ → Queue → Queue
finish_all [] now q = q
finish_all (id ∷ ids) now q = finish_all ids now (finish id now q)

unfoldable pub sweep_timeouts : ℕ → Queue → Queue × List ℕ
sweep_timeouts now q =
    let (swept, expired) = sweep_requests q.limits.ttl now q.requests in
    (finish_all expired now (record q { requests = swept }), expired)

abbrev pub state_in : Option PendingRequest → Option RequestState
state_in none = none
state_in (some request) = some request.state

unfoldable pub state_of : ℕ → Queue → Option RequestState
state_of id q = state_in (find (has_id id) q.requests)

described : Option PendingRequest → Option (Scope × Text × Option ℕ)
described none = none
described (some request) = some (request.scope, request.key, request.requested_ttl)

unfoldable pub describe : ℕ → Queue → Option (Scope × Text × Option ℕ)
unfolding described
describe id q = described (find (has_id id) q.requests)

unfoldable pub is_idle : Queue → Bool
is_idle q = not (any (λ request. is_active request.state) q.requests)

abbrev pub is_kept : ℕ → ℕ → PendingRequest → Bool
is_kept horizon now request =
    is_active request.state
    || is_some_and (checked_duration_since now request.created) (λ elapsed. ltb elapsed horizon)

unfoldable pub prune : ℕ → Queue → Queue
prune now q = record q {
  requests = retain (is_kept (saturating_double q.limits.ttl) now) q.requests;
}
