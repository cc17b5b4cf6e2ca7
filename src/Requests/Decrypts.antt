-- ===== src/Requests/Decrypts.antt =====
-- What the worker does to the queue of crates/secrets/src/requests/queue.rs: it starts a decrypt and
-- holds it until it fails or completes.
use mathlib.Core.Path.{subst}
use forward.Prelude.{
  sym, ap, ◌∙◌, ℕ, ◌≡◌, ◌≢◌, refl, true, false, Option, none, some, List, [], ◌∷◌, arith, any,
  update_first, All, ◌⊎◌, inl, inr, Bool-cases, saturating_add,
}
use forward.Requests.Types.{decrypting, granted, failed, PendingRequest, Queue}
use forward.Requests.Queue.{
  has_id, mark_decrypting, started, finish, complete, fail, set_state, is_current, clear_inflight,
}
use forward.Requests.Updates.{update-All, All-map}
use forward.Requests.Sound.{
  IsSound, InFlight, mark-cases, mark-IsSound, fail-IsSound, complete-IsSound,
}
use forward.Requests.Moves.{held_of, HeldBy, IsSettled, same_next, Moves, stays, update-held}

not_held :
    (id g : ℕ) (o : Option ℕ) (r : PendingRequest)
    → held_of id g ≡ held_of r.id r.generation
    → clear_inflight id o ≢ some r.id
not_held id g none r e = λ f. cc
not_held id g (some other) r e = ground arith

-- Once the worker's request is finished, none is being decrypted.
released-HeldBy :
    (id g : ℕ) (o : Option ℕ) (rs : List PendingRequest)
    → All (InFlight (clear_inflight id o)) rs
    → All (HeldBy (held_of id g)) rs
    → All (HeldBy none) rs
released-HeldBy id g o [] i h = tt
released-HeldBy id g o (r ∷ rs) i h =
    ((λ d. absurd (not_held id g o r (h.0 d) (i.0 d))), released-HeldBy id g o rs i.1 h.1)

pub fail-Moves : (id g now : ℕ) (q : Queue) → Moves (held_of id g) q none (fail id now q)
unfolding fail finish
fail-Moves id g now q = record {
  grows = same_next q (fail id now q) refl;
  keeps = λ room h. record {
    sound = fail-IsSound id now q h.sound;
    all_held =
        released-HeldBy id g q.inflight (update_first (has_id id) (set_state failed) q.requests)
          (fail-IsSound id now q h.sound).single
          (update-held (held_of id g) id (set_state failed) q (λ r e. cc) h);
  };
}

abbrev as_granted : ℕ → Queue → Queue
as_granted id q = record q { requests = update_first (has_id id) (set_state granted) q.requests }

complete-cases :
    (id g now : ℕ) (q : Queue)
    → ((any (is_current id g) q.requests ≡ true)
        × ((complete id g now q).0 ≡ finish id now (as_granted id q)))
      ⊎ ((any (is_current id g) q.requests ≡ false) × ((complete id g now q).0 ≡ finish id now q))
unfolding complete
complete-cases id g now q = elim (Bool-cases (any (is_current id g) q.requests)) [
  | inl current ↦ inl (current, rw current refl)
  | inr stale ↦ inr (stale, rw stale refl)
]

finish-held :
    (id g now : ℕ) (q : Queue)
    → All (HeldBy (held_of id g)) q.requests
    → IsSound (finish id now q)
    → All (HeldBy none) (finish id now q).requests
unfolding finish
finish-held id g now q h sound = released-HeldBy id g q.inflight q.requests sound.single h

complete-held :
    (id g now : ℕ) (q : Queue)
    → IsSettled (held_of id g) q
    → IsSound (complete id g now q).0
    → All (HeldBy none) (complete id g now q).0.requests
complete-held id g now q h sound = elim (complete-cases id g now q) [
  | inl (current, same) ↦
      subst (λ x. All (HeldBy none) x.requests) (sym same)
        (finish-held id g now (as_granted id q)
          (update-held (held_of id g) id (set_state granted) q (λ r e. cc) h)
          (subst IsSound same sound))
  | inr (stale, same) ↦
      subst (λ x. All (HeldBy none) x.requests) (sym same)
        (finish-held id g now q h.all_held (subst IsSound same sound))
]

same_generation :
    (id g : ℕ) (r : PendingRequest) → held_of id g ≡ held_of r.id r.generation → r.generation ≡ g
same_generation id g r e = cc

complete-next_id : (id g now : ℕ) (q : Queue) → (complete id g now q).0.next_id ≡ q.next_id
unfolding finish
complete-next_id id g now q = elim (complete-cases id g now q) [
  | inl (current, same) ↦ ap (λ x. x.next_id) same
  | inr (stale, same) ↦ ap (λ x. x.next_id) same
]

pub complete-Moves :
    (id g now : ℕ) (q : Queue) → Moves (held_of id g) q none (complete id g now q).0
complete-Moves id g now q = record {
  grows = same_next q (complete id g now q).0 (complete-next_id id g now q);
  keeps = λ room h.
      let sound : IsSound (complete id g now q).0 =
        complete-IsSound id g now q
          (All-map q.requests (λ r b e d. same_generation id g r (b d)) h.all_held) h.sound in
      record { sound = sound; all_held = complete-held id g now q h sound };
}

started-Moves :
    (id : ℕ) (q : Queue)
    → (IsSound q → IsSound (started id q).0)
    → Moves none q (held_of id (saturating_add q.generation 1)) (started id q).0
unfolding started
started-Moves id q sound = record {
  grows = same_next q (started id q).0 refl;
  keeps = λ room h. record {
    sound = sound h.sound;
    all_held =
        update-All id
          (λ r. record r { state = decrypting; generation = saturating_add q.generation 1 })
          q.requests (λ r b e d. ap (λ x. held_of x (saturating_add q.generation 1)) (sym e))
          (λ r b ne d. absurd (cc (b d))) h.sound.distinct h.all_held;
  };
}

started-answer : (id : ℕ) (q : Queue) → (started id q).1 ≡ some (saturating_add q.generation 1)
unfolding started
started-answer id q = refl

-- The worker takes a request up while it holds none.
pub mark-Moves :
    (id now g : ℕ) (q : Queue)
    → (mark_decrypting id now q).1 ≡ some g
    → Moves none q (held_of id g) (mark_decrypting id now q).0
mark-Moves id now g q answer = elim (mark-cases id now q) [
  | inl same ↦ absurd (cc (sym (ap (λ r. r.1) same) ∙ answer))
  | inr go ↦
      let next : saturating_add q.generation 1 ≡ g =
        cc (sym (started-answer id q) ∙ sym (ap (λ r. r.1) go.5) ∙ answer) in
      subst (λ x. Moves none q (held_of id x) (mark_decrypting id now q).0) next
        (subst (λ r. Moves none q (held_of id (saturating_add q.generation 1)) r.0) (sym go.5)
          (started-Moves id q (λ h. subst (λ r. IsSound r.0) go.5 (mark-IsSound id now q h))))
]

pub refused-Moves :
    (id now : ℕ) (q : Queue)
    → (mark_decrypting id now q).1 ≡ none
    → Moves none q none (mark_decrypting id now q).0
refused-Moves id now q answer = elim (mark-cases id now q) [
  | inl same ↦ subst (λ r. Moves none q none r.0) (sym same) (stays none q)
  | inr go ↦ absurd (cc (sym (started-answer id q) ∙ sym (ap (λ r. r.1) go.5) ∙ answer))
]
