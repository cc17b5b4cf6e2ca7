-- ===== src/Requests/Ended.antt =====
-- crates/secrets/src/requests/queue.rs: a request that has ended, and the completions that come for it
-- later.
use forward.Prelude.{
  ℕ, ◌<◌, ◌≡◌, refl, true, false, Option, none, some, List, [], ◌∷◌, arith, ◌==◌, find, any,
  update_first, All, All-find, find-eq-some, inl, inr, Bool-cases, sym,
}
use mathlib.Core.Path.{subst}
use forward.Requests.Types.{RequestState, granted, denied, PendingRequest, Queue, is_active}
use forward.Requests.Queue.{
  has_id, finish, complete, deny, ended, end_request, set_state, end_with, is_current,
}
use forward.Requests.Ops.{Op, run}
use forward.Requests.Updates.{update-All}
use forward.Requests.Sound.{IsSound}
use forward.Requests.Over.{Rests, IsOver, complete_over, run-IsOver}

pub over-update :
    (id : ℕ) (f : PendingRequest → PendingRequest) (q : Queue)
    → ((r : PendingRequest) → is_active (f r).state ≡ false)
    → IsSound q
    → All (Rests id) (update_first (has_id id) f q.requests)
over-update id f q rest h =
    update-All id f q.requests (λ r b e e'. rest r) (λ r b ne e. absurd (ne e)) h.distinct h.below

ended-IsOver :
    (state : RequestState) (id now : ℕ) (q : Queue) (r : PendingRequest)
    → is_active state ≡ false
    → find (has_id id) q.requests ≡ some r
    → IsSound q
    → IsOver id (ended state id now q)
unfolding ended finish
ended-IsOver state id now q r over found h = record {
  given = omega (
    arith,
    All-find (λ x. x.id < q.next_id) (has_id id) q.requests h.below found,
    id_found id r (find-eq-some (has_id id) q.requests found),
  );
  fits = h.fits;
  at_rest = over-update id (end_with state) q (λ x. over) h;
}
  where
    id_found : (i : ℕ) (x : PendingRequest) → (x.id == i) ≡ true → x.id ≡ i
    id_found i x e = ground arith

end_true :
    (state : RequestState) (id now : ℕ) (o : Option PendingRequest) (q : Queue)
    → (end_request state id now o q).1 ≡ true
    → (r : PendingRequest) × (o ≡ some r)
      × ((end_request state id now o q).0 ≡ ended state id now q)
unfolding end_request
end_true state id now none q h = cc
end_true state id now (some r) q h = elim (Bool-cases (is_active r.state)) [
  | inl e ↦ (r, refl, rw e)
  | inr e ↦ absurd (ground arith)
]

-- What a denial that succeeds does.
pub deny-eq-true :
    (id now : ℕ) (q : Queue)
    → (deny id now q).1 ≡ true
    → (r : PendingRequest) × (find (has_id id) q.requests ≡ some r)
      × ((deny id now q).0 ≡ ended denied id now q)
unfolding deny
deny-eq-true id now q h = end_true denied id now (find (has_id id) q.requests) q h

-- Once a request of a sound queue is denied, no completion of it is ever accepted, whatever
-- operations the queue sees afterwards, and whatever generation the completion claims.
pub denied_never_completes :
    (id now : ℕ) (q : Queue) (ops : List Op) (generation later : ℕ)
    → IsSound q
    → (deny id now q).1 ≡ true
    → (complete id generation later (run ops (deny id now q).0)).1 ≡ false
denied_never_completes id now q ops generation later h ok' =
    let (r, found, same) = deny-eq-true id now q ok' in
    complete_over id generation later (run ops (deny id now q).0) (
      run-IsOver id ops (deny id now q).0
        (subst (IsOver id) (sym same) (ended-IsOver denied id now q r refl found h)))

complete-eq-true :
    (id generation now : ℕ) (q : Queue)
    → (complete id generation now q).1 ≡ true
    → (any (is_current id generation) q.requests ≡ true)
      × ((complete id generation now q).0
          ≡ finish id now
              (record q { requests = update_first (has_id id) (set_state granted) q.requests }))
unfolding complete
complete-eq-true id generation now q h = ground arith

current_below :
    (id generation n : ℕ) (rs : List PendingRequest)
    → any (is_current id generation) rs ≡ true
    → All (λ r. r.id < n) rs
    → id < n
current_below id generation n [] e h = cc
current_below id generation n (r ∷ rs) e h =
    ground (arith, h.0, current_below id generation n rs, h.1)

-- After a completion that a sound queue accepted, no later one of the same request is accepted,
-- whatever operations the queue sees in between.
pub completes_at_most_once :
    (id generation now : ℕ) (q : Queue) (ops : List Op) (generation' later : ℕ)
    → IsSound q
    → (complete id generation now q).1 ≡ true
    → (complete id generation' later (run ops (complete id generation now q).0)).1 ≡ false
unfolding finish
completes_at_most_once id generation now q ops generation' later h ok' =
    let (current, same) = complete-eq-true id generation now q ok' in
    complete_over id generation' later (run ops (complete id generation now q).0) (
      run-IsOver id ops (complete id generation now q).0 (
        subst (IsOver id) (sym same) (record {
          given = current_below id generation q.next_id q.requests current h.below;
          fits = h.fits;
          at_rest = over-update id (set_state granted) q (λ x. refl) h;
        })))
