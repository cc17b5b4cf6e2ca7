-- ===== src/Requests/Over.antt =====
-- A request that is over (crates/secrets/src/requests/): what stays so, whatever operations follow.
use forward.Prelude.{
  ℕ, ◌≤◌, ◌<◌, ◌≡◌, refl, true, false, Option, some, List, [], ◌∷◌, arith, ◌==◌, find, any,
  update_first, All, All-append, All-retain, All-find, inl, inr, Bool-cases, Text, u64_max,
  saturating_add, saturating_double, sym,
}
use mathlib.Core.Path.{subst}
use forward.Grants.Scope.{Scope}
use forward.Requests.Types.{
  pending, decrypting, granted, denied, timed_out, failed, PendingRequest, Queue, is_active,
  is_pending,
}
use forward.Requests.Queue.{
  has_id, push_request, started, finish, complete, fail, timeout, deny, ended, sweep_requests,
  sweep_timeouts, prune, set_state, end_with, is_current, waited_too_long, is_kept,
}
use forward.Requests.Ops.{
  Op, enqueue_op, mark_op, complete_op, fail_op, timeout_op, deny_op, sweep_op, prune_op, apply,
  run,
}
use forward.Requests.Sound.{enqueue-cases, mark-cases}
use forward.Requests.Sweep.{requests-finish_all, next_id-finish_all}

-- No request with this id is waiting or decrypting.
abbrev pub Rests : ℕ → PendingRequest → Type 0
Rests id r = r.id ≡ id → is_active r.state ≡ false

-- The id was given out, and its request has ended.
pub record IsOver (id : ℕ) (q : Queue) : Type 0 where
  pub given : id < q.next_id
  pub fits : q.next_id ≤ u64_max
  pub at_rest : All (Rests id) q.requests

update-Rests :
    (id i : ℕ) (f : PendingRequest → PendingRequest) (rs : List PendingRequest)
    → ((r : PendingRequest) → find (has_id i) rs ≡ some r → Rests id r → Rests id (f r))
    → All (Rests id) rs
    → All (Rests id) (update_first (has_id i) f rs)
update-Rests id i f [] h all = tt
update-Rests id i f (r ∷ rs) h all = elim (Bool-cases (r.id == i)) [
  | inl e ↦ rw e (h r (rw e) all.0, all.1)
  | inr e ↦ rw e (all.0, update-Rests id i f rs (λ x found. h x (rw e found)) all.1)
]

find-Rests :
    (id i : ℕ) (rs : List PendingRequest) (r : PendingRequest)
    → find (has_id i) rs ≡ some r
    → All (Rests id) rs
    → Rests id r
find-Rests id i rs r found all = All-find (Rests id) (has_id i) rs all found

sweep-Rests :
    (id ttl now : ℕ) (rs : List PendingRequest)
    → All (Rests id) rs
    → All (Rests id) (sweep_requests ttl now rs).0
unfolding sweep_requests
sweep-Rests id ttl now [] h = tt
sweep-Rests id ttl now (r ∷ rs) h = elim (Bool-cases (waited_too_long ttl now r)) [
  | inl late ↦ rw late ((λ e. refl), sweep-Rests id ttl now rs h.1)
  | inr early ↦ rw early (h.0, sweep-Rests id ttl now rs h.1)
]

pub no_current :
    (id generation : ℕ) (rs : List PendingRequest)
    → All (Rests id) rs
    → any (is_current id generation) rs ≡ false
no_current id generation [] h = refl
no_current id generation (r ∷ rs) h = ground (arith, h.0, no_current id generation rs h.1)

-- An ended request is never completed.
pub complete_over :
    (id generation now : ℕ) (q : Queue) → IsOver id q → (complete id generation now q).1 ≡ false
unfolding complete
complete_over id generation now q h = rw (no_current id generation q.requests h.at_rest)

module _ (id : ℕ) where
  push-IsOver :
      (scope : Scope) (key : Text) (now : ℕ) (ttl : Option ℕ) (q : Queue)
      → IsOver id q
      → IsOver id (push_request scope key now ttl q).0
  unfolding push_request
  push-IsOver scope key now ttl q h = record {
    given = ground (arith, h.given, h.fits);
    fits = ground arith;
    at_rest =
        All-append (Rests id) q.requests
          (record {
            id = q.next_id;
            scope = scope;
            key = key;
            state = pending;
            generation = 0;
            created = now;
            requested_ttl = ttl;
          }
            ∷ [])
          h.at_rest ((λ e. absurd (omega (arith, h.given))), tt);
  }

  started-IsOver :
      (i : ℕ) (q : Queue) (r : PendingRequest)
      → find (has_id i) q.requests ≡ some r
      → is_pending r.state ≡ true
      → IsOver id q
      → IsOver id (started i q).0
  unfolding started
  started-IsOver i q r found waits h = record {
    given = h.given;
    fits = h.fits;
    at_rest =
        update-Rests id i
          (λ r. record r { state = decrypting; generation = saturating_add q.generation 1 })
          q.requests (λ x same rest e. ground (arith, find-Rests id i q.requests r found h.at_rest))
          h.at_rest;
  }

  finish-IsOver :
      (i now : ℕ) (f : PendingRequest → PendingRequest) (q : Queue)
      → ((r : PendingRequest) → is_active (f r).state ≡ false)
      → IsOver id q
      → IsOver id (finish i now (record q { requests = update_first (has_id i) f q.requests }))
  unfolding finish
  finish-IsOver i now f q rest h = record {
    given = h.given;
    fits = h.fits;
    at_rest = update-Rests id i f q.requests (λ r found was e. rest r) h.at_rest;
  }

  complete-IsOver :
      (i generation now : ℕ) (q : Queue) → IsOver id q → IsOver id (complete i generation now q).0
  unfolding complete finish
  complete-IsOver i generation now q h =
      elim (Bool-cases (any (is_current i generation) q.requests)) [
        | inl current ↦ rw current (finish-IsOver i now (set_state granted) q (λ r. refl) h)
        | inr stale ↦ rw stale (record { given = h.given; fits = h.fits; at_rest = h.at_rest })
      ]

  timeout-IsOver : (i now : ℕ) (q : Queue) → IsOver id q → IsOver id (timeout i now q).0
  unfolding timeout ended
  timeout-IsOver i now q h =
      grind (arith, h, finish-IsOver i now (end_with timed_out) q (λ r. refl) h)

  deny-IsOver : (i now : ℕ) (q : Queue) → IsOver id q → IsOver id (deny i now q).0
  unfolding deny ended
  deny-IsOver i now q h = grind (arith, h, finish-IsOver i now (end_with denied) q (λ r. refl) h)

  sweep-IsOver : (now : ℕ) (q : Queue) → IsOver id q → IsOver id (sweep_timeouts now q).0
  unfolding sweep_timeouts
  sweep-IsOver now q h =
      let (rs, ids) = sweep_requests q.limits.ttl now q.requests in
      let q' : Queue = record q { requests = rs } in
      record {
        given = rw (next_id-finish_all ids now q') h.given;
        fits = rw (next_id-finish_all ids now q') h.fits;
        at_rest =
            rw (requests-finish_all ids now q')
              (sweep-Rests id q.limits.ttl now q.requests h.at_rest);
      }

  -- One operation keeps an ended request ended.
  pub apply-IsOver : (op : Op) (q : Queue) → IsOver id q → IsOver id (apply op q)
  unfolding apply
  apply-IsOver (enqueue_op scope key now ttl) q h = elim (enqueue-cases scope key now ttl q) [
    | inl same ↦ subst (IsOver id) (sym same) h
    | inr pushed ↦ subst (λ r. IsOver id r.0) (sym pushed) (push-IsOver scope key now ttl q h)
  ]
  apply-IsOver (mark_op i now) q h = elim (mark-cases i now q) [
    | inl same ↦ subst (λ r. IsOver id r.0) (sym same) h
    | inr go ↦ subst (λ r. IsOver id r.0) (sym go.5) (started-IsOver i q go.0 go.1 go.2 h)
  ]
  apply-IsOver (complete_op i generation now) q h = complete-IsOver i generation now q h
  apply-IsOver (fail_op i now) q h =
      unfold fail in finish-IsOver i now (set_state failed) q (λ r. refl) h
  apply-IsOver (timeout_op i now) q h = timeout-IsOver i now q h
  apply-IsOver (deny_op i now) q h = deny-IsOver i now q h
  apply-IsOver (sweep_op now) q h = sweep-IsOver now q h
  apply-IsOver (prune_op now) q h =
      unfold prune in
      record {
        given = h.given;
        fits = h.fits;
        at_rest =
            All-retain (Rests id) (is_kept (saturating_double q.limits.ttl) now) q.requests
              h.at_rest;
      }

  pub run-IsOver : (ops : List Op) (q : Queue) → IsOver id q → IsOver id (run ops q)
  unfolding run
  run-IsOver [] q h = h
  run-IsOver (op ∷ ops) q h = run-IsOver ops (apply op q) (apply-IsOver op q h)

-- Among sound requests, ending the active one with an id leaves none with that id active.
