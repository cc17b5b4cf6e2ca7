-- ===== src/Requests/Sound.antt =====
-- The queue's invariant: fresh distinct ids, and a decrypting request is the one in flight.
use mathlib.Core.Path.{subst}
use forward.Prelude.{
  sym, ap, ◌⊎◌, ℕ, ◌+◌, ◌≤◌, ◌<◌, ◌≡◌, refl, ◌≢◌, Bool, true, false, ◌||◌, Option, none, some, List,
  [], ◌∷◌, arith, find, any, update_first, All, All-append, All-retain, inl, inr, Bool-cases, Text,
  u64_max, saturating_add, saturating_double, is_some,
}
use forward.Grants.Scope.{Scope}
use forward.Requests.Types.{
  RequestState, pending, decrypting, granted, denied, timed_out, failed, QueueLimits,
  PendingRequest, Queue, is_pending,
}
use forward.Requests.Queue.{
  has_id, new, enqueue, push_request, started, ended, start_decrypt, is_current, mark_decrypting,
  finish, complete, fail, timeout, deny, prune, clear_inflight, set_state, end_with, is_kept,
  is_cooling,
}
use forward.Requests.Updates.{
  AreDistinct, update-AreDistinct, update-All, All-map, retain-AreDistinct, append-AreDistinct,
}

-- A request that is being decrypted is the one in flight.
abbrev pub InFlight : Option ℕ → PendingRequest → Type 0
InFlight inflight r = r.state ≡ decrypting → inflight ≡ some r.id

pub record IsSound (q : Queue) : Type 0 where
  pub fits : q.next_id ≤ u64_max
  pub below : All (λ r. r.id < q.next_id) q.requests
  pub distinct : AreDistinct q.requests
  pub single : All (InFlight q.inflight) q.requests

-- Updating the request `id` by a function that leaves it out of the decrypting state, and then
-- finishing `id`, keeps the invariant.
module _ (id now : ℕ) (f : PendingRequest → PendingRequest)
    (keep : (r : PendingRequest) → (f r).id ≡ r.id)
    (over : (r : PendingRequest) → (f r).state ≢ decrypting) where
  finish-update-IsSound :
      (q : Queue)
      → IsSound q
      → IsSound (finish id now (record q { requests = update_first (has_id id) f q.requests }))
  unfolding finish
  finish-update-IsSound q h = record {
    fits = h.fits;
    below = update-All id f q.requests (λ r b e. rw (keep r) b) (λ r b ne. b) h.distinct h.below;
    distinct = update-AreDistinct id f q.requests keep h.distinct;
    single =
        update-All id f q.requests (λ r b e d. absurd (over r d))
          (λ r b ne d. rw (b d) (ground arith)) h.distinct h.single;
  }

abbrev BelowNext : ℕ → PendingRequest → Type 0
BelowNext n r = r.id < n

next_grows : (n : ℕ) → n < u64_max → saturating_add n 1 ≡ n + 1
next_grows n h = ground arith

push-IsSound :
    (scope : Scope) (key : Text) (now : ℕ) (ttl : Option ℕ) (q : Queue)
    → q.next_id < u64_max
    → IsSound q
    → IsSound (push_request scope key now ttl q).0
unfolding push_request
push-IsSound scope key now ttl q room h =
    let fresh : PendingRequest = record {
      id = q.next_id;
      scope = scope;
      key = key;
      state = pending;
      generation = 0;
      created = now;
      requested_ttl = ttl;
    } in
    rw (next_grows q.next_id room) (record {
      fits = omega arith;
      below =
          All-append (BelowNext (q.next_id + 1)) q.requests (fresh ∷ [])
            (All-map q.requests (λ r b. omega arith) h.below) (omega arith, tt);
      distinct = append-AreDistinct fresh q.requests h.below h.distinct;
      single = All-append (InFlight q.inflight) q.requests (fresh ∷ []) h.single ((λ e. cc), tt);
    })

-- What `enqueue` can do: leave the queue alone, or push a request.
pub enqueue-cases :
    (scope : Scope) (key : Text) (now : ℕ) (ttl : Option ℕ) (q : Queue)
    → ((enqueue scope key now ttl q).0 ≡ q)
      ⊎ (enqueue scope key now ttl q ≡ push_request scope key now ttl q)
unfolding enqueue
enqueue-cases scope key now ttl q = ground arith

-- A new request, a coalesced one and a refused one leave the queue sound, while the counter of ids
-- is below the largest 64-bit number.
pub enqueue-IsSound :
    (scope : Scope) (key : Text) (now : ℕ) (ttl : Option ℕ) (q : Queue)
    → q.next_id < u64_max
    → IsSound q
    → IsSound (enqueue scope key now ttl q).0
enqueue-IsSound scope key now ttl q room h = elim (enqueue-cases scope key now ttl q) [
  | inl same ↦ subst IsSound (sym same) h
  | inr pushed ↦ subst (λ r. IsSound r.0) (sym pushed) (push-IsSound scope key now ttl q room h)
]

or_right : (a b : Bool) → (a || b) ≡ false → b ≡ false
or_right true b e = cc
or_right false b e = e

start-cases :
    (id : ℕ) (o : Option PendingRequest) (q : Queue)
    → (start_decrypt id o q ≡ (q, none))
      ⊎ ((r : PendingRequest) × (o ≡ some r)
          × (is_pending r.state ≡ true)
          × (start_decrypt id o q ≡ started id q))
unfolding start_decrypt
start-cases id none q = inl refl
start-cases id (some r) q = elim (Bool-cases (is_pending r.state)) [
  | inl e ↦ inr (r, refl, e, rw e)
  | inr e ↦ inl (rw e)
]

-- What `mark_decrypting` can do: refuse, or start the decrypt of a pending request while none is in
-- flight and no cooldown runs.
pub mark-cases :
    (id now : ℕ) (q : Queue)
    → (mark_decrypting id now q ≡ (q, none))
      ⊎ ((r : PendingRequest) × (find (has_id id) q.requests ≡ some r)
          × (is_pending r.state ≡ true)
          × (q.inflight ≡ none)
          × (is_cooling now q ≡ false)
          × (mark_decrypting id now q ≡ started id q))
unfolding mark_decrypting
mark-cases id now q = elim (Bool-cases (is_some q.inflight || is_cooling now q)) [
  | inl busy ↦ inl (rw busy)
  | inr free ↦ elim (start-cases id (find (has_id id) q.requests) q) [
    | inl same ↦ inl (rw free same)
    | inr go ↦ inr (go.0, go.1, go.2, idle_of q.inflight free, calm_of free, rw free go.3)
  ]
]
  where
    idle_of : (o : Option ℕ) → (is_some o || is_cooling now q) ≡ false → o ≡ none
    idle_of none e = refl
    idle_of (some i) e = cc

    calm_of : (is_some q.inflight || is_cooling now q) ≡ false → is_cooling now q ≡ false
    calm_of e = or_right (is_some q.inflight) (is_cooling now q) e

pub none_decrypting :
    (rs : List PendingRequest) → All (InFlight none) rs → All (λ r. r.state ≢ decrypting) rs
none_decrypting rs h = All-map rs (λ r i d. cc (i d)) h

started-IsSound : (id : ℕ) (q : Queue) → q.inflight ≡ none → IsSound q → IsSound (started id q).0
unfolding started
started-IsSound id q idle h =
    let f : PendingRequest → PendingRequest =
      λ r. record r { state = decrypting; generation = saturating_add q.generation 1 } in
    let calm : All (λ r. r.state ≢ decrypting) q.requests =
      none_decrypting q.requests (subst (λ i. All (InFlight i) q.requests) idle h.single) in
    record {
      fits = h.fits;
      below = update-All id f q.requests (λ r b e. b) (λ r b ne. b) h.distinct h.below;
      distinct = update-AreDistinct id f q.requests (λ r. refl) h.distinct;
      single =
          update-All id f q.requests (λ r c e d. ap some (sym e)) (λ r c ne d. absurd (c d))
            h.distinct calm;
    }

pub mark-IsSound : (id now : ℕ) (q : Queue) → IsSound q → IsSound (mark_decrypting id now q).0
mark-IsSound id now q h = elim (mark-cases id now q) [
  | inl same ↦ subst (λ r. IsSound r.0) (sym same) h
  | inr go ↦ subst (λ r. IsSound r.0) (sym go.5) (started-IsSound id q go.3 h)
]

-- `fail` keeps the queue sound.
pub fail-IsSound : (id now : ℕ) (q : Queue) → IsSound q → IsSound (fail id now q)
unfolding fail
fail-IsSound id now q h =
    finish-update-IsSound id now (set_state failed) (λ r. refl) (λ r e. cc) q h

ended-IsSound :
    (state : RequestState) (id now : ℕ) (q : Queue)
    → state ≢ decrypting
    → IsSound q
    → IsSound (ended state id now q)
unfolding ended
ended-IsSound state id now q over h =
    finish-update-IsSound id now (end_with state) (λ r. refl) (λ r. over) q h

pub timeout-IsSound : (id now : ℕ) (q : Queue) → IsSound q → IsSound (timeout id now q).0
unfolding timeout
timeout-IsSound id now q h = grind (arith, h, ended-IsSound timed_out id now q (λ e. cc) h)

pub deny-IsSound : (id now : ℕ) (q : Queue) → IsSound q → IsSound (deny id now q).0
unfolding deny
deny-IsSound id now q h = grind (arith, h, ended-IsSound denied id now q (λ e. cc) h)

-- Where no decrypt of `id` has another generation, a completion that is out of date finds the
-- request of `id` at rest.
not_current :
    (id generation : ℕ) (rs : List PendingRequest)
    → All (λ r. r.id ≡ id → r.state ≡ decrypting → r.generation ≡ generation) rs
    → any (is_current id generation) rs ≡ false
    → All (λ r. r.state ≡ decrypting → r.id ≢ id) rs
not_current id generation [] same e = tt
not_current id generation (r ∷ rs) same e =
    (λ d eq. ground (arith, same.0 eq d), not_current id generation rs same.1 (ground arith))

finish-IsSound :
    (id now : ℕ) (q : Queue)
    → All (λ r. r.state ≡ decrypting → r.id ≢ id) q.requests
    → IsSound q
    → IsSound (finish id now q)
unfolding finish
finish-IsSound id now q rest h = record {
  fits = h.fits;
  below = h.below;
  distinct = h.distinct;
  single = both q.requests rest h.single;
}
  where
    both :
        (rs : List PendingRequest)
        → All (λ r. r.state ≡ decrypting → r.id ≢ id) rs
        → All (InFlight q.inflight) rs
        → All (InFlight (clear_inflight id q.inflight)) rs
    both [] a b = tt
    both (r ∷ rs) a b = (λ d. rw (b.0 d) (still r (a.0 d)), both rs a.1 b.1)
      where
        still : (x : PendingRequest) → x.id ≢ id → clear_inflight id (some x.id) ≡ some x.id
        still x ne = ground arith

-- `complete` keeps the queue sound if the request, when it is being decrypted, is so under the
-- generation given.
pub complete-IsSound :
    (id generation now : ℕ) (q : Queue)
    → All (λ r. r.id ≡ id → r.state ≡ decrypting → r.generation ≡ generation) q.requests
    → IsSound q
    → IsSound (complete id generation now q).0
unfolding complete
complete-IsSound id generation now q same h =
    elim (Bool-cases (any (is_current id generation) q.requests)) [
      | inl current ↦
          rw current (finish-update-IsSound id now (set_state granted) (λ r. refl) (λ r e. cc) q h)
      | inr stale ↦
          rw stale (finish-IsSound id now q (not_current id generation q.requests same stale) h)
    ]

pub prune-IsSound : (now : ℕ) (q : Queue) → IsSound q → IsSound (prune now q)
unfolding prune
prune-IsSound now q h = record {
  fits = h.fits;
  below =
      All-retain (BelowNext q.next_id) (is_kept (saturating_double q.limits.ttl) now) q.requests
        h.below;
  distinct =
      retain-AreDistinct (is_kept (saturating_double q.limits.ttl) now) q.requests h.distinct;
  single =
      All-retain (InFlight q.inflight) (is_kept (saturating_double q.limits.ttl) now) q.requests
        h.single;
}

pub new-IsSound : (limits : QueueLimits) → IsSound (new limits)
unfolding new
new-IsSound limits = record { fits = omega arith; below = tt; distinct = tt; single = tt }
