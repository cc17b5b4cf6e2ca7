-- ===== src/Requests/Moves.antt =====
-- The queue of crates/secrets/src/requests/ and its worker: a request that is being decrypted is the
-- one the worker holds.
use mathlib.Core.Path.{subst}
use forward.Prelude.{
  sym, ap, ◌∙◌, ℕ, ◌≤◌, ◌<◌, ◌≡◌, ◌≢◌, refl, Option, some, List, [], ◌∷◌, arith, update_first, All,
  All-append, All-retain, inl, inr, Bool-cases, Text, u64_max, saturating_double,
}
use forward.Grants.Scope.{Scope}
use forward.Requests.Types.{RequestState, decrypting, denied, timed_out, PendingRequest, Queue}
use forward.Requests.Queue.{
  has_id, enqueue, push_request, finish, timeout, deny, ended, sweep_requests, sweep_timeouts,
  prune, end_with, waited_too_long, is_kept,
}
use forward.Requests.Updates.{update-All}
use forward.Requests.Sound.{
  IsSound, enqueue-cases, enqueue-IsSound, timeout-IsSound, deny-IsSound, prune-IsSound,
}
use forward.Requests.Sweep.{requests-finish_all, next_id-finish_all, sweep-IsSound}
use forward.Requests.Limits.{deny-cases, timeout-cases}

-- The id and the generation that the worker holds, if any.
abbrev pub Held : Type 0
Held = Option (ℕ × ℕ)

abbrev pub held_of : ℕ → ℕ → Held
held_of id generation = some (id, generation)

abbrev pub HeldBy : Held → PendingRequest → Type 0
HeldBy held r = r.state ≡ decrypting → held ≡ held_of r.id r.generation

pub record IsSettled (held : Held) (q : Queue) : Type 0 where
  pub sound : IsSound q
  pub all_held : All (HeldBy held) q.requests

abbrev pub Grows : Queue → Queue → Type 0
Grows q q' = q.next_id ≤ u64_max → (q.next_id ≤ q'.next_id) × (q'.next_id ≤ u64_max)

pub same_next : (q q' : Queue) → q'.next_id ≡ q.next_id → Grows q q'
same_next q q' same h = (omega arith, omega arith)

-- One operation: ids are never taken back, and while there are ids left it keeps the queue settled.
pub record Moves (held : Held) (q : Queue) (held' : Held) (q' : Queue) : Type 0 where
  pub grows : Grows q q'
  pub keeps : q'.next_id < u64_max → IsSettled held q → IsSettled held' q'

pub stays : (held : Held) (q : Queue) → Moves held q held q
stays held q = record { grows = same_next q q refl; keeps = λ room h. h }

pub then-Moves : {a b c : Held} {p q r : Queue} → Moves a p b q → Moves b q c r → Moves a p c r
then-Moves m n = record {
  grows =
      λ h. let (up, fits) = m.grows h in let (up', fits') = n.grows fits in (omega arith, fits');
  keeps = λ room h.
      let (up, fits) = m.grows h.sound.fits in
      n.keeps room (m.keeps (omega (arith, (n.grows fits).0)) h);
}

pub update-held :
    (held : Held) (id : ℕ) (f : PendingRequest → PendingRequest) (q : Queue)
    → ((r : PendingRequest) → (f r).state ≢ decrypting)
    → IsSettled held q
    → All (HeldBy held) (update_first (has_id id) f q.requests)
update-held held id f q over h =
    update-All id f q.requests (λ r b e d. absurd (over r d)) (λ r b ne. b) h.sound.distinct
      h.all_held

module _ (held : Held) (scope : Scope) (key : Text) (now : ℕ) (ttl : Option ℕ) (q : Queue) where
  pushed-next_id : Grows q (push_request scope key now ttl q).0
  unfolding push_request
  pushed-next_id h = (ground arith, ground arith)

  room_before : (push_request scope key now ttl q).0.next_id < u64_max → q.next_id < u64_max
  unfolding push_request
  room_before room = ground arith

  pushed-held :
      All (HeldBy held) q.requests → All (HeldBy held) (push_request scope key now ttl q).0.requests
  unfolding push_request
  pushed-held h = All-append (HeldBy held) q.requests _ h ((λ e. absurd (cc e)), tt)

  pub enqueue-Moves : Moves held q held (enqueue scope key now ttl q).0
  enqueue-Moves = elim (enqueue-cases scope key now ttl q) [
    | inl same ↦ subst (Moves held q held) (sym same) (stays held q)
    | inr pushed ↦
        let next : (enqueue scope key now ttl q).0.next_id
            ≡ (push_request scope key now ttl q).0.next_id =
          ap (λ r. r.0.next_id) pushed in
        record {
          grows = subst (λ r. Grows q r.0) (sym pushed) pushed-next_id;
          keeps = λ room h. record {
            sound = enqueue-IsSound scope key now ttl q (room_before (omega (arith, next))) h.sound;
            all_held =
                subst (λ r. All (HeldBy held) r.0.requests) (sym pushed) (pushed-held h.all_held);
          };
        }
  ]

ended-held :
    (held : Held) (state : RequestState) (id now : ℕ) (q : Queue)
    → state ≢ decrypting
    → IsSettled held q
    → All (HeldBy held) (ended state id now q).requests
unfolding ended finish
ended-held held state id now q over h = update-held held id (end_with state) q (λ r. over) h

ended-next_id :
    (state : RequestState) (id now : ℕ) (q : Queue) → (ended state id now q).next_id ≡ q.next_id
unfolding ended finish
ended-next_id state id now q = refl

-- `deny` and `timeout`: nothing, or the end of the request.
over-Moves :
    (held : Held) (state : RequestState) (id now : ℕ) (q q' : Queue)
    → state ≢ decrypting
    → q' ≡ ended state id now q
    → (IsSound q → IsSound q')
    → Moves held q held q'
over-Moves held state id now q q' over same sound = record {
  grows = same_next q q' (ap (λ x. x.next_id) same ∙ ended-next_id state id now q);
  keeps = λ room h. record {
    sound = sound h.sound;
    all_held =
        subst (λ x. All (HeldBy held) x.requests) (sym same)
          (ended-held held state id now q over h);
  };
}

pub deny-Moves : (held : Held) (id now : ℕ) (q : Queue) → Moves held q held (deny id now q).0
deny-Moves held id now q = elim (deny-cases id now q) [
  | inl same ↦ subst (Moves held q held) (sym same) (stays held q)
  | inr over ↦
      over-Moves held denied id now q (deny id now q).0 (λ e. cc) over (deny-IsSound id now q)
]

pub timeout-Moves : (held : Held) (id now : ℕ) (q : Queue) → Moves held q held (timeout id now q).0
timeout-Moves held id now q = elim (timeout-cases id now q) [
  | inl same ↦ subst (Moves held q held) (sym same) (stays held q)
  | inr over ↦
      over-Moves held timed_out id now q (timeout id now q).0 (λ e. cc) over
        (timeout-IsSound id now q)
]

pub prune-Moves : (held : Held) (now : ℕ) (q : Queue) → Moves held q held (prune now q)
unfolding prune
prune-Moves held now q = record {
  grows = same_next q (prune now q) refl;
  keeps = λ room h. record {
    sound = prune-IsSound now q h.sound;
    all_held =
        All-retain (HeldBy held) (is_kept (saturating_double q.limits.ttl) now) q.requests
          h.all_held;
  };
}

sweep-held :
    (held : Held) (ttl now : ℕ) (rs : List PendingRequest)
    → All (HeldBy held) rs
    → All (HeldBy held) (sweep_requests ttl now rs).0
unfolding sweep_requests
sweep-held held ttl now [] h = tt
sweep-held held ttl now (r ∷ rs) h = elim (Bool-cases (waited_too_long ttl now r)) [
  | inl late ↦ rw late ((λ e. absurd (cc e)), sweep-held held ttl now rs h.1)
  | inr early ↦ rw early (h.0, sweep-held held ttl now rs h.1)
]

pub sweep-Moves : (held : Held) (now : ℕ) (q : Queue) → Moves held q held (sweep_timeouts now q).0
unfolding sweep_timeouts
sweep-Moves held now q =
    let swept = sweep_requests q.limits.ttl now q.requests in
    record {
      grows =
          same_next q (sweep_timeouts now q).0
            (next_id-finish_all swept.1 now (record q { requests = swept.0 }));
      keeps = λ room h. record {
        sound = sweep-IsSound now q h.sound;
        all_held =
            subst (All (HeldBy held))
              (sym (requests-finish_all swept.1 now (record q { requests = swept.0 })))
              (sweep-held held q.limits.ttl now q.requests h.all_held);
      };
    }
