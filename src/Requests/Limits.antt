-- ===== src/Requests/Limits.antt =====
-- How many requests of one scope may wait at a time.
use mathlib.Core.Path.{subst}
use forward.Prelude.{
  ℕ, ◌≤◌, ◌<◌, ◌≡◌, refl, sym, Bool, true, false, not, ◌&&◌, Option, some, List, [], ◌∷◌, arith,
  find, any, retain, count_if, update_first, count_if-append, count_if-retain-le, inl, inr, ◌⊎◌,
  Bool-cases, Text, saturating_add, saturating_double,
}
use forward.Grants.Scope.{Scope, scope_eq}
use forward.Requests.Types.{
  pending, decrypting, granted, denied, timed_out, failed, QueueLimits, PendingRequest, Queue,
  is_active, is_pending,
}
use forward.Requests.Queue.{
  has_id, new, enqueue, push_request, counts, pending_limit, is_capability_key, started, finish,
  complete, fail, timeout, deny, ended, sweep_requests, sweep_timeouts, prune, set_state, end_with,
  is_current, is_kept, finish_all,
}
use forward.Requests.Ops.{
  Op, enqueue_op, mark_op, complete_op, fail_op, timeout_op, deny_op, sweep_op, prune_op, apply,
  run,
}
use forward.Requests.Updates.{count-update-le}
use forward.Requests.Sound.{mark-cases}
use forward.Requests.Sweep.{requests-finish_all}

-- An active request of the scope for a plain key, and one for a capability's key.
abbrev pub is_plain : Scope → PendingRequest → Bool
is_plain scope r = scope_eq r.scope scope && not (is_capability_key r.key) && is_active r.state

abbrev pub is_ceremony : Scope → PendingRequest → Bool
is_ceremony scope r = scope_eq r.scope scope && is_capability_key r.key && is_active r.state

-- For each scope: as many active requests for plain keys as the limit allows, and one for a
-- capability.
pub record IsWithin (max : ℕ) (q : Queue) : Type 0 where
  pub limit : q.limits.max_pending_per_scope ≡ max
  pub plain : (scope : Scope) → count_if (is_plain scope) q.requests ≤ max
  pub ceremony : (scope : Scope) → count_if (is_ceremony scope) q.requests ≤ 1

ceremony-eq-counts :
    (scope : Scope) (rs : List PendingRequest)
    → count_if (is_ceremony scope) rs ≡ count_if (counts true scope) rs
ceremony-eq-counts scope [] = refl
ceremony-eq-counts scope (r ∷ rs) = ground (arith, ceremony-eq-counts scope rs)

plain-le-counts :
    (scope : Scope) (rs : List PendingRequest)
    → count_if (is_plain scope) rs ≤ count_if (counts false scope) rs
plain-le-counts scope [] = omega arith
plain-le-counts scope (r ∷ rs) = ground (arith, plain-le-counts scope rs)

pub timeout-cases :
    (i now : ℕ) (q : Queue)
    → ((timeout i now q).0 ≡ q) ⊎ ((timeout i now q).0 ≡ ended timed_out i now q)
unfolding timeout
timeout-cases i now q = ground arith

pub deny-cases :
    (i now : ℕ) (q : Queue) → ((deny i now q).0 ≡ q) ⊎ ((deny i now q).0 ≡ ended denied i now q)
unfolding deny
deny-cases i now q = ground arith

-- `enqueue` pushes only below the limit that applies to its key.
pub enqueue-room :
    (scope : Scope) (key : Text) (now : ℕ) (ttl : Option ℕ) (q : Queue)
    → ((enqueue scope key now ttl q).0 ≡ q)
      ⊎ ((enqueue scope key now ttl q ≡ push_request scope key now ttl q)
          × (count_if (counts (is_capability_key key) scope) q.requests
              < pending_limit (is_capability_key key) q.limits))
unfolding enqueue
enqueue-room scope key now ttl q = ground arith

module _ (max : ℕ) where
  push-IsWithin :
      (scope : Scope) (key : Text) (now : ℕ) (ttl : Option ℕ) (q : Queue)
      → count_if (counts (is_capability_key key) scope) q.requests
        < pending_limit (is_capability_key key) q.limits
      → IsWithin max q
      → IsWithin max (push_request scope key now ttl q).0
  unfolding push_request
  push-IsWithin scope key now ttl q room h =
      let one : List PendingRequest =
        record {
          id = q.next_id;
          scope = scope;
          key = key;
          state = pending;
          generation = 0;
          created = now;
          requested_ttl = ttl;
        }
        ∷ [] in
      record {
        limit = h.limit;
        plain = λ s.
            rw (count_if-append (is_plain s) q.requests one)
              (ground (arith, h.limit, h.plain s, plain-le-counts scope q.requests));
        ceremony = λ s.
            rw (count_if-append (is_ceremony s) q.requests one)
              (ground (arith, h.ceremony s, ceremony-eq-counts scope q.requests));
      }

  -- A change of the requests that raises no count keeps the limits.
  shrink-IsWithin :
      (q q' : Queue)
      → q'.limits ≡ q.limits
      → ((s : Scope) → count_if (is_plain s) q'.requests ≤ count_if (is_plain s) q.requests)
      → ((s : Scope) → count_if (is_ceremony s) q'.requests ≤ count_if (is_ceremony s) q.requests)
      → IsWithin max q
      → IsWithin max q'
  shrink-IsWithin q q' same p c h = record {
    limit = rw same h.limit;
    plain = λ s. omega (arith, p s, h.plain s);
    ceremony = λ s. omega (arith, c s, h.ceremony s);
  }

  over-IsWithin :
      (i now : ℕ) (f : PendingRequest → PendingRequest) (q : Queue)
      → ((r : PendingRequest) → is_active (f r).state ≡ false)
      → IsWithin max q
      → IsWithin max (finish i now (record q { requests = update_first (has_id i) f q.requests }))
  unfolding finish
  over-IsWithin i now f q rest h =
      shrink-IsWithin q
        (finish i now (record q { requests = update_first (has_id i) f q.requests })) refl
        (λ s.
          count-update-le (is_plain s) (has_id i) f q.requests (λ r found. ground (arith, rest r)))
        (λ s.
          count-update-le (is_ceremony s) (has_id i) f q.requests
            (λ r found. ground (arith, rest r)))
        h

  started-IsWithin :
      (i : ℕ) (q : Queue) (r : PendingRequest)
      → find (has_id i) q.requests ≡ some r
      → is_pending r.state ≡ true
      → IsWithin max q
      → IsWithin max (started i q).0
  unfolding started
  started-IsWithin i q r found waits h =
      let f : PendingRequest → PendingRequest =
        λ x. record x { state = decrypting; generation = saturating_add q.generation 1 } in
      shrink-IsWithin q (started i q).0 refl
        (λ s. count-update-le (is_plain s) (has_id i) f q.requests (λ x was. ground arith))
        (λ s. count-update-le (is_ceremony s) (has_id i) f q.requests (λ x was. ground arith)) h

  complete-IsWithin :
      (i generation now : ℕ) (q : Queue)
      → IsWithin max q
      → IsWithin max (complete i generation now q).0
  unfolding complete
  complete-IsWithin i generation now q h =
      elim (Bool-cases (any (is_current i generation) q.requests)) [
        | inl current ↦ rw current (over-IsWithin i now (set_state granted) q (λ r. refl) h)
        | inr stale ↦
            rw stale
              (unfold finish in record { limit = h.limit; plain = h.plain; ceremony = h.ceremony })
      ]

  timeout-IsWithin : (i now : ℕ) (q : Queue) → IsWithin max q → IsWithin max (timeout i now q).0
  timeout-IsWithin i now q h = elim (timeout-cases i now q) [
    | inl same ↦ subst (IsWithin max) (sym same) h
    | inr over ↦
        subst (IsWithin max) (sym over)
          (unfold ended in over-IsWithin i now (end_with timed_out) q (λ r. refl) h)
  ]

  deny-IsWithin : (i now : ℕ) (q : Queue) → IsWithin max q → IsWithin max (deny i now q).0
  deny-IsWithin i now q h = elim (deny-cases i now q) [
    | inl same ↦ subst (IsWithin max) (sym same) h
    | inr over ↦
        subst (IsWithin max) (sym over)
          (unfold ended in over-IsWithin i now (end_with denied) q (λ r. refl) h)
  ]

sweep-count-le :
    (p : PendingRequest → Bool) (ttl now : ℕ) (rs : List PendingRequest)
    → ((r : PendingRequest) → is_active r.state ≡ false → p r ≡ false)
    → count_if p (sweep_requests ttl now rs).0 ≤ count_if p rs
unfolding sweep_requests
sweep-count-le p ttl now [] rest = omega arith
sweep-count-le p ttl now (r ∷ rs) rest =
    ground (arith, rest (end_with timed_out r) refl, sweep-count-le p ttl now rs rest)

limits-finish_all : (ids : List ℕ) (now : ℕ) (q : Queue) → (finish_all ids now q).limits ≡ q.limits
unfolding finish_all finish
limits-finish_all [] now q = refl
limits-finish_all (id ∷ ids) now q = limits-finish_all ids now (finish id now q)

module _ (max : ℕ) where
  sweep-IsWithin : (now : ℕ) (q : Queue) → IsWithin max q → IsWithin max (sweep_timeouts now q).0
  unfolding sweep_timeouts
  sweep-IsWithin now q h =
      let (rs, ids) = sweep_requests q.limits.ttl now q.requests in
      let q' : Queue = record q { requests = rs } in
      shrink-IsWithin max q (finish_all ids now q') (limits-finish_all ids now q')
        (λ s.
          rw (requests-finish_all ids now q')
            (sweep-count-le (is_plain s) q.limits.ttl now q.requests (λ r rest. ground arith)))
        (λ s.
          rw (requests-finish_all ids now q')
            (sweep-count-le (is_ceremony s) q.limits.ttl now q.requests (λ r rest. ground arith)))
        h

  prune-IsWithin : (now : ℕ) (q : Queue) → IsWithin max q → IsWithin max (prune now q)
  unfolding prune
  prune-IsWithin now q h =
      let keep : PendingRequest → Bool = is_kept (saturating_double q.limits.ttl) now in
      shrink-IsWithin max q (record q { requests = retain keep q.requests }) refl
        (λ s. count_if-retain-le (is_plain s) keep q.requests)
        (λ s. count_if-retain-le (is_ceremony s) keep q.requests) h

  -- Every operation keeps the limits.
  pub apply-IsWithin : (op : Op) (q : Queue) → IsWithin max q → IsWithin max (apply op q)
  unfolding apply
  apply-IsWithin (enqueue_op scope key now ttl) q h = elim (enqueue-room scope key now ttl q) [
    | inl same ↦ subst (IsWithin max) (sym same) h
    | inr pushed ↦
        subst (λ r. IsWithin max r.0) (sym pushed.0)
          (push-IsWithin max scope key now ttl q pushed.1 h)
  ]
  apply-IsWithin (mark_op i now) q h = elim (mark-cases i now q) [
    | inl same ↦ subst (λ r. IsWithin max r.0) (sym same) h
    | inr go ↦ subst (λ r. IsWithin max r.0) (sym go.5) (started-IsWithin max i q go.0 go.1 go.2 h)
  ]
  apply-IsWithin (complete_op i generation now) q h = complete-IsWithin max i generation now q h
  apply-IsWithin (fail_op i now) q h =
      unfold fail in over-IsWithin max i now (set_state failed) q (λ r. refl) h
  apply-IsWithin (timeout_op i now) q h = timeout-IsWithin max i now q h
  apply-IsWithin (deny_op i now) q h = deny-IsWithin max i now q h
  apply-IsWithin (sweep_op now) q h = sweep-IsWithin now q h
  apply-IsWithin (prune_op now) q h = prune-IsWithin now q h

  run-IsWithin : (ops : List Op) (q : Queue) → IsWithin max q → IsWithin max (run ops q)
  unfolding run
  run-IsWithin [] q h = h
  run-IsWithin (op ∷ ops) q h = run-IsWithin ops (apply op q) (apply-IsWithin op q h)

-- From an empty queue, whatever operations it sees in whatever order: of each scope at most the
-- configured number of requests for plain keys, and at most one for a capability, wait or decrypt
-- at a time.
pub run-limits :
    (limits : QueueLimits) (ops : List Op) (scope : Scope)
    → let q = run ops (new limits) in
      (count_if (is_plain scope) q.requests ≤ limits.max_pending_per_scope)
      × (count_if (is_ceremony scope) q.requests ≤ 1)
run-limits limits ops scope =
    let h : IsWithin limits.max_pending_per_scope (run ops (new limits)) =
      run-IsWithin limits.max_pending_per_scope ops (new limits) (
        unfold new in
        record { limit = refl; plain = λ s. omega arith; ceremony = λ s. omega arith }) in
    (h.plain scope, h.ceremony scope)
