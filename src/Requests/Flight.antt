-- ===== src/Requests/Flight.antt =====
-- Which request reaches the hardware and when, and whose approval a request's id stands for.
use mathlib.Core.Path.{subst}
use forward.Prelude.{
  ℕ, ◌-◌, ◌≤◌, ◌<◌, ◌≡◌, refl, ap, ◌≢◌, Bool, true, false, Option, none, some, List, [], ◌∷◌, arith,
  ◌==◌, if◌then◌else◌, find, any, update_first, inl, inr, ◌⊎◌, All, find-eq-some, find-append,
  Bool-cases, Option-cases, Text, saturating_add,
}
use forward.ErrCode.{ok}
use forward.Grants.Scope.{Scope}
use forward.Requests.Types.{RequestState, decrypting, failed, PendingRequest, Queue, is_pending}
use forward.Requests.Queue.{
  has_id, enqueue, push_request, admit, coalesce_or_admit, coalesces, mark_decrypting, started,
  start_decrypt, fail, finish, set_state, next_ready, state_of, describe, is_capability_key,
}
use forward.Requests.Updates.{AreDistinct, update-All}
use forward.Requests.Sound.{IsSound, InFlight, mark-cases, none_decrypting}

-- Among distinct ids, what a search finds is what its id finds.
pub find-id :
    (p : PendingRequest → Bool) (rs : List PendingRequest) (r : PendingRequest)
    → AreDistinct rs
    → find p rs ≡ some r
    → find (has_id r.id) rs ≡ some r
find-id p [] r d h = cc
find-id p (x ∷ rs) r d h = elim (Bool-cases (p x)) [
  | inl e ↦ ground arith
  | inr e ↦ go (find-id p rs r d.1 (ground arith))
]
  where
    go : find (has_id r.id) rs ≡ some r → find (has_id r.id) (x ∷ rs) ≡ some r
    go found = elim (Bool-cases (x.id == r.id)) [
      | inl same ↦ absurd (clash rs found (ground arith) d.0)
      | inr other ↦ rw other found
    ]
      where
        clash :
            (l : List PendingRequest)
            → find (has_id r.id) l ≡ some r
            → x.id ≡ r.id
            → any (has_id x.id) l ≡ false
            → ⊥
        clash [] f e a = cc
        clash (y ∷ l) f e a = ground (arith, clash l)

-- The request that `next_ready` names in a sound queue can be started at that time: marking it as
-- decrypting succeeds, under the next generation.
pub next_ready-starts :
    (now : ℕ) (q : Queue) (id : ℕ)
    → IsSound q
    → next_ready now q ≡ some id
    → mark_decrypting id now q ≡ started id q
unfolding next_ready mark_decrypting
next_ready-starts now q id h ready =
    elim (Option-cases (find (λ request. is_pending request.state) q.requests)) [
      | inl e ↦ absurd (ground arith)
      | inr w ↦
          let r : PendingRequest = w.0 in
          let same : r.id ≡ id = ground (arith, w.1) in
          let waits : is_pending r.state ≡ true =
            find-eq-some (λ request. is_pending request.state) q.requests w.1 in
          let found : find (has_id id) q.requests ≡ some r =
            subst (λ i. find (has_id i) q.requests ≡ some r) same
              (find-id (λ request. is_pending request.state) q.requests r h.distinct w.1) in
          rw found (unfold start_decrypt in ground arith)
    ]

-- In a sound queue, a decrypt starts only while no other runs and after the cooldown since the last one finished; it
-- is then the only one, and the one in flight.
pub single_flight :
    (id now : ℕ) (q : Queue) (generation : ℕ)
    → IsSound q
    → (mark_decrypting id now q).1 ≡ some generation
    → All (λ r. r.state ≢ decrypting) q.requests
      × ((last : ℕ) → q.last_finished ≡ some last → last ≤ now → q.limits.cooldown ≤ now - last)
      × All (λ r. r.state ≡ decrypting → r.id ≡ id) (mark_decrypting id now q).0.requests
      × ((mark_decrypting id now q).0.inflight ≡ some id)
unfolding started
single_flight id now q generation h some_generation = elim (mark-cases id now q) [
  | inl refused ↦ absurd (cc (ap (λ r. r.1) refused))
  | inr go ↦
      let calm : All (λ r. r.state ≢ decrypting) q.requests =
        none_decrypting q.requests (subst (λ i. All (InFlight i) q.requests) go.3 h.single) in
      (
        calm,
        λ last was le. ground (arith, go.4),
        rw (ap (λ r. r.0) go.5) (
            update-All id
              (λ r. record r { state = decrypting; generation = saturating_add q.generation 1 })
              q.requests (λ r c e d. e) (λ r c ne d. absurd (c d)) h.distinct calm),
        ap (λ r. r.0.inflight) go.5,
      )
]

-- `fail` makes a request failed whatever its state was, also one that a human has denied.
pub state_of-fail :
    (id now : ℕ) (q : Queue) (s : RequestState)
    → state_of id q ≡ some s
    → state_of id (fail id now q) ≡ some failed
unfolding state_of fail finish
state_of-fail id now q s h = go q.requests h
  where
    go :
        (rs : List PendingRequest)
        → elim (find (has_id id) rs) [ none ↦ none | some r ↦ some r.state ] ≡ some s
        → elim (find (has_id id) (update_first (has_id id) (set_state failed) rs)) [
          | none ↦ none
          | some r ↦ some r.state
        ]
          ≡ some failed
    go [] e = cc
    go (r ∷ rs) e = ground (arith, go rs)

-- The request that an id describes is for this scope and key.
abbrev pub Describes : Scope → Text → Option (Scope × Text × Option ℕ) → Type 0
Describes scope key d = (ttl : Option ℕ) × (d ≡ some (scope, key, ttl))

fresh_id : (n : ℕ) (rs : List PendingRequest) → All (λ r. r.id < n) rs → find (has_id n) rs ≡ none
fresh_id n [] h = refl
fresh_id n (r ∷ rs) h = ground (arith, h.0, fresh_id n rs h.1)

admit_ok :
    (scope : Scope) (key : Text) (now : ℕ) (ttl : Option ℕ) (q : Queue) (id : ℕ)
    → (admit scope key now ttl q).1 ≡ ok id
    → (q.next_id ≡ id) × ((admit scope key now ttl q).0 ≡ (push_request scope key now ttl q).0)
unfolding admit push_request
admit_ok scope key now ttl q id h = ground arith

-- What `enqueue` answers: the id of an identical active request, or the next id.
enqueue_ok :
    (scope : Scope) (key : Text) (now : ℕ) (ttl : Option ℕ) (q : Queue) (id : ℕ)
    → (enqueue scope key now ttl q).1 ≡ ok id
    → ((r : PendingRequest) × (find (coalesces scope key) q.requests ≡ some r)
        × (r.id ≡ id)
        × ((enqueue scope key now ttl q).0 ≡ q))
      ⊎ ((q.next_id ≡ id)
          × ((enqueue scope key now ttl q).0 ≡ (push_request scope key now ttl q).0))
unfolding enqueue
enqueue_ok scope key now ttl q id h =
    go (is_capability_key key) (find (coalesces scope key) q.requests) h
  where
    go :
        (cap : Bool) (o : Option PendingRequest)
        → (coalesce_or_admit (if cap then none else o) scope key now ttl q).1 ≡ ok id
        → ((r : PendingRequest) × (o ≡ some r)
            × (r.id ≡ id)
            × ((coalesce_or_admit (if cap then none else o) scope key now ttl q).0 ≡ q))
          ⊎ ((q.next_id ≡ id)
              × ((coalesce_or_admit (if cap then none else o) scope key now ttl q).0
                  ≡ (push_request scope key now ttl q).0))
    go true o e = inr (admit_ok scope key now ttl q id e)
    go false none e = inr (admit_ok scope key now ttl q id e)
    go false (some r) e = inl (r, refl, (cc e), refl)

-- An id that `enqueue` hands out from a sound queue stands for a request of the very scope and key
-- that asked.
pub describe-enqueue :
    (scope : Scope) (key : Text) (now : ℕ) (ttl : Option ℕ) (q : Queue) (id : ℕ)
    → IsSound q
    → (enqueue scope key now ttl q).1 ≡ ok id
    → Describes scope key (describe id (enqueue scope key now ttl q).0)
unfolding describe push_request
describe-enqueue scope key now ttl q id h e = elim (enqueue_ok scope key now ttl q id e) [
  | inl old ↦
      let r : PendingRequest = old.0 in
      let is : coalesces scope key r ≡ true = find-eq-some (coalesces scope key) q.requests old.1 in
      let found : find (has_id id) q.requests ≡ some r =
        subst (λ i. find (has_id i) q.requests ≡ some r) old.2
          (find-id (coalesces scope key) q.requests r h.distinct old.1) in
      (r.requested_ttl, rw old.3 (rw found (ground arith)))
  | inr new ↦ (
    ttl,
    rw new.1 (
        rw (find-append (has_id id) q.requests) (
          rw
            (subst (λ i. find (has_id i) q.requests ≡ none) new.0
              (fresh_id q.next_id q.requests h.below))
            (ground (arith, new.0)))),
  )
]
