-- ===== src/Requests/Sweep.antt =====
-- The sweep of requests that waited too long keeps the queue sound.
use forward.Prelude.{
  ℕ, ◌<◌, ◌≡◌, refl, Bool, true, false, Option, some, List, [], ◌∷◌, arith, ◌==◌, if◌then◌else◌,
  any, All, inl, inr, Bool-cases, ◌∙◌,
}
use forward.Requests.Types.{decrypting, timed_out, PendingRequest, Queue}
use forward.Requests.Queue.{
  has_id, finish, sweep_requests, finish_all, sweep_timeouts, expire_request, waited_too_long,
  end_with,
}
use forward.Requests.Updates.{AreDistinct}
use forward.Requests.Sound.{InFlight, IsSound}

module _ (ttl now : ℕ) where
  abbrev swept : List PendingRequest → List PendingRequest
  swept rs = (sweep_requests ttl now rs).0

  abbrev expired : List PendingRequest → List ℕ
  expired rs = (sweep_requests ttl now rs).1

  abbrev lists : ℕ → List ℕ → Bool
  lists id ids = any (λ other. other == id) ids

  id-expire : (r : PendingRequest) → (expire_request ttl now r).id ≡ r.id
  id-expire r = ground arith

  any-swept : (x : ℕ) (rs : List PendingRequest) → any (has_id x) (swept rs) ≡ any (has_id x) rs
  unfolding sweep_requests
  any-swept x [] = refl
  any-swept x (r ∷ rs) = ground (arith, id-expire r, any-swept x rs)

  swept-AreDistinct : (rs : List PendingRequest) → AreDistinct rs → AreDistinct (swept rs)
  unfolding sweep_requests
  swept-AreDistinct [] h = tt
  swept-AreDistinct (r ∷ rs) h =
      (rw (id-expire r) (any-swept r.id rs ∙ h.0), swept-AreDistinct rs h.1)

  swept-below :
      (n : ℕ) (rs : List PendingRequest) → All (λ r. r.id < n) rs → All (λ r. r.id < n) (swept rs)
  unfolding sweep_requests
  swept-below n [] h = tt
  swept-below n (r ∷ rs) h = (rw (id-expire r) h.0, swept-below n rs h.1)

  expired_fresh :
      (x : ℕ) (rs : List PendingRequest) → any (has_id x) rs ≡ false → lists x (expired rs) ≡ false
  unfolding sweep_requests
  expired_fresh x [] h = refl
  expired_fresh x (r ∷ rs) h = ground (arith, expired_fresh x rs)

  -- What is still decrypting after the sweep was decrypting before, and did not expire.
  abbrev Spared : List ℕ → PendingRequest → Type 0
  Spared ids r = r.state ≡ decrypting → lists r.id ids ≡ false

  Spared-more :
      (id : ℕ) (ids : List ℕ) (rs : List PendingRequest)
      → any (has_id id) rs ≡ false
      → All (Spared ids) rs
      → All (Spared (id ∷ ids)) rs
  Spared-more id ids [] fresh h = tt
  Spared-more id ids (r ∷ rs) fresh h =
      ((λ d. ground (arith, h.0 d)), Spared-more id ids rs (ground arith) h.1)

  swept-Spared : (rs : List PendingRequest) → AreDistinct rs → All (Spared (expired rs)) (swept rs)
  unfolding sweep_requests
  swept-Spared [] h = tt
  swept-Spared (r ∷ rs) h =
      split (waited_too_long ttl now r) (expired rs) (swept rs) (expired_fresh r.id rs h.0)
        (any-swept r.id rs ∙ h.0) (swept-Spared rs h.1)
    where
      split :
          (late : Bool) (ids : List ℕ) (others : List PendingRequest)
          → lists r.id ids ≡ false
          → any (has_id r.id) others ≡ false
          → All (Spared ids) others
          → All
              (Spared (if late then r.id ∷ ids else ids))
              ((if late then end_with timed_out r else r) ∷ others)
      split true ids others fresh new h' = ((λ d. cc d), Spared-more r.id ids others new h')
      split false ids others fresh new h' = ((λ d. fresh), h')

  swept-InFlight :
      (inflight : Option ℕ) (rs : List PendingRequest)
      → All (InFlight inflight) rs
      → All (InFlight inflight) (swept rs)
  unfolding sweep_requests
  swept-InFlight inflight [] h = tt
  swept-InFlight inflight (r ∷ rs) h = elim (Bool-cases (waited_too_long ttl now r)) [
    | inl late ↦ rw late ((λ d. cc d), swept-InFlight inflight rs h.1)
    | inr early ↦ rw early (h.0, swept-InFlight inflight rs h.1)
  ]

pub requests-finish_all :
    (ids : List ℕ) (now : ℕ) (q : Queue) → (finish_all ids now q).requests ≡ q.requests
unfolding finish_all finish
requests-finish_all [] now q = refl
requests-finish_all (id ∷ ids) now q = requests-finish_all ids now (finish id now q)

pub next_id-finish_all :
    (ids : List ℕ) (now : ℕ) (q : Queue) → (finish_all ids now q).next_id ≡ q.next_id
unfolding finish_all finish
next_id-finish_all [] now q = refl
next_id-finish_all (id ∷ ids) now q = next_id-finish_all ids now (finish id now q)

inflight-finish_all :
    (x : ℕ) (ids : List ℕ) (now : ℕ) (q : Queue)
    → any (λ other. other == x) ids ≡ false
    → q.inflight ≡ some x
    → (finish_all ids now q).inflight ≡ some x
unfolding finish_all finish
inflight-finish_all x [] now q e h = h
inflight-finish_all x (id ∷ ids) now q e h =
    inflight-finish_all x ids now (finish id now q) (ground arith) (rw h (ground arith))

Spared-InFlight :
    (ids : List ℕ) (now : ℕ) (q : Queue) (rs : List PendingRequest)
    → All (λ r. r.state ≡ decrypting → any (λ other. other == r.id) ids ≡ false) rs
    → All (InFlight q.inflight) rs
    → All (InFlight (finish_all ids now q).inflight) rs
Spared-InFlight ids now q [] s h = tt
Spared-InFlight ids now q (r ∷ rs) s h = (
  (λ d. inflight-finish_all r.id ids now q (s.0 d) (h.0 d)),
  Spared-InFlight ids now q rs s.1 h.1,
)

-- The sweep keeps the queue sound.
pub sweep-IsSound : (now : ℕ) (q : Queue) → IsSound q → IsSound (sweep_timeouts now q).0
unfolding sweep_timeouts
sweep-IsSound now q h =
    let ttl : ℕ = q.limits.ttl in
    let ids : List ℕ = expired ttl now q.requests in
    let q' : Queue = record q { requests = swept ttl now q.requests } in
    record {
      fits = rw (next_id-finish_all ids now q') h.fits;
      below =
          rw (requests-finish_all ids now q', next_id-finish_all ids now q')
            (swept-below ttl now q.next_id q.requests h.below);
      distinct =
          rw (requests-finish_all ids now q') (swept-AreDistinct ttl now q.requests h.distinct);
      single = rw (requests-finish_all ids now q') (
          Spared-InFlight ids now q' (swept ttl now q.requests)
            (swept-Spared ttl now q.requests h.distinct)
            (swept-InFlight ttl now q.inflight q.requests h.single));
    }
