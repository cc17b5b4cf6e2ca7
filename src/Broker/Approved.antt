-- ===== src/Broker/Approved.antt =====
-- When the approval that AUTHORIZE waits for is granted (crates/secrets/src/server/approval.rs), and
-- what it then concludes.
use mathlib.Core.Path.{subst}
use forward.Prelude.{
  ℕ, ◌≡◌, ◌≢◌, refl, true, false, Option, none, some, Text, Option-cases, inl, inr,
  checked_duration_since,
}
use forward.ErrCode.{ErrCode}
use forward.Grants.Scope.{Scope}
use forward.Requests.Types.{Queue, RequestState, granted}
use forward.Requests.Types as Types
use forward.Requests.Queue as Queue
use forward.Requests.Sound.{IsSound}
use forward.Requests.Flight.{Describes}
use forward.Broker.State.{State, Fields, fields, receipt_text}
use forward.Broker.Approval.{
  Access, Backing, Approval, approved, rejected, incomplete, finished, waiting, begin_approval,
  poll_approval, poll_state, expire_waiting, conclude, granted_fields,
}
use forward.Broker.Waits.{begin-Asks, Asks-finished, waits-Describes}

-- How a round of waiting can finish: with the approval of a request that the queue has granted, or
-- with an error.
pub data Finishes (source : Text) (id : ℕ) (state : Option RequestState) : Approval → Type 0 where
  approves : state ≡ some granted → Finishes source id state (approved (some source) (some id))
  gives_up : {e : ErrCode} → Finishes source id state (incomplete e id)

given_up :
    {source : Text} {id : ℕ} {state : Option RequestState} {e : ErrCode} {a : Approval}
    → finished (incomplete e id) ≡ finished a
    → Finishes source id state a
given_up {source} {id} {state} {e = e} h =
    subst (Finishes source id state) (cc h) (gives_up {e = e})

not_expired :
    (source : Text) (id deadline now : ℕ) (state : Option RequestState) (left : Option ℕ)
    (s : State) (a : Approval)
    → (expire_waiting source id deadline now left s).1 ≡ finished a
    → Finishes source id state a
unfolding expire_waiting
not_expired source id deadline now state none s a h = given_up h
not_expired source id deadline now state (some remaining) s a h = absurd (cc h)

state-Finishes :
    (source : Text) (id deadline now : ℕ) (state : Option RequestState) (s : State) (a : Approval)
    → (poll_state source id deadline now state s).1 ≡ finished a
    → Finishes source id state a
unfolding poll_state
state-Finishes source id deadline now none s a h = given_up h
state-Finishes source id deadline now (some Types.granted) s a h =
    subst (Finishes source id (some granted)) (cc h) (approves refl)
state-Finishes source id deadline now (some Types.denied) s a h = given_up h
state-Finishes source id deadline now (some Types.timed_out) s a h = given_up h
state-Finishes source id deadline now (some Types.failed) s a h = given_up h
state-Finishes source id deadline now (some Types.pending) s a h =
    not_expired source id deadline now (some Types.pending) (checked_duration_since deadline now) s
      a h
state-Finishes source id deadline now (some Types.decrypting) s a h =
    not_expired source id deadline now (some Types.decrypting) (checked_duration_since deadline now)
      s a h

poll-Finishes :
    (source : Text) (id deadline now : ℕ) (s : State) (a : Approval)
    → (poll_approval source id deadline now s).1 ≡ finished a
    → Finishes source id (Queue.state_of id s.queue) a
unfolding poll_approval
poll-Finishes source id deadline now s a h = state-Finishes source id deadline now _ s a h

-- `dispatch_access` answers AUTHORIZE with fields or an error: never with a receipt itself.
pub conclude-no_receipt :
    (access : Access) (scope : Scope) (key : Text) (now : ℕ) (a : Approval) (s : State) (t : Text)
    → (conclude access false scope key now a s).outcome ≢ receipt_text t
unfolding conclude granted_fields
conclude-no_receipt access scope key now (rejected e) s t h = cc h
conclude-no_receipt access scope key now (incomplete e id) s t h = cc h
conclude-no_receipt access scope key now (approved source id) s t h =
    elim (Option-cases access.requested_ttl) [ inl e ↦ cc (h, e) | inr (ttl, e) ↦ cc (h, e) ]

-- Only an approval makes fields; so what AUTHORIZE makes a receipt of is one.
pub conclude-fields :
    (access : Access) (scope : Scope) (key : Text) (now : ℕ) (a : Approval) (s : State) (f : Fields)
    → (conclude access false scope key now a s).outcome ≡ fields f
    → (source : Option Text) × (a
        ≡ approved source (conclude access false scope key now a s).request_id)
unfolding conclude
conclude-fields access scope key now (rejected e) s f h = absurd (cc h)
conclude-fields access scope key now (incomplete e id) s f h = absurd (cc h)
conclude-fields access scope key now (approved source id) s f h = (source, refl)

-- What AUTHORIZE's wait comes to, with a fresh approval asked for: its first part answers, in one
-- state, or it waits from there and a round of its loop answers, in another.
pub data Awaited (backing : Backing) (scope : Scope) (key : Text) (ttl : Option ℕ)
    (looked now later : ℕ) (first last : State) : Approval → Type 0 where
  answered_first :
      {a : Approval}
      → (begin_approval backing scope key true ttl looked now first).1 ≡ finished a
      → Awaited backing scope key ttl looked now later first last a
  answered_later :
      {a : Approval} {source : Text} {id deadline : ℕ}
      → (begin_approval backing scope key true ttl looked now first).1 ≡ waiting source id deadline
      → (poll_approval source id deadline later last).1 ≡ finished a
      → Awaited backing scope key ttl looked now later first last a

-- The wait ends in an approval only where the queue has granted the request that it asked for.
pub Awaited-approved :
    {backing : Backing} {scope : Scope} {key : Text} {ttl : Option ℕ} {looked now later : ℕ}
    {first last : State} {a : Approval} {source : Option Text} {id : Option ℕ}
    → Awaited backing scope key ttl looked now later first last a
    → IsSound first.queue
    → a ≡ approved source id
    → (request : ℕ) × (id ≡ some request)
      × Describes scope key (
          Queue.describe request
            (begin_approval backing scope key true ttl looked now first).0.queue)
      × (Queue.state_of request last.queue ≡ some granted)
Awaited-approved {backing} {scope} {key} {ttl} {looked} {now} {first = first} (answered_first h)
      sound e =
    let (code, refusal) =
      Asks-finished scope key ttl now (begin-Asks scope key ttl now backing looked first) h in
    absurd (cc (refusal, e))
Awaited-approved {backing} {scope} {key} {ttl} {looked} {now} {later} {first} {last} {a}
      (answered_later {source = source} {id = id} {deadline = deadline} waits polled) sound e =
    let (same, is_granted) = approved_by (poll-Finishes source id deadline later last a polled) e in
    (id, same, waits-Describes scope key ttl now backing looked first sound waits, is_granted)
  where
    approved_by :
        {state : Option RequestState} {b : Approval} {from : Text} {i : ℕ} {source' : Option Text}
        {id' : Option ℕ}
        → Finishes from i state b
        → b ≡ approved source' id'
        → (id' ≡ some i) × (state ≡ some granted)
    approved_by (approves g) h = (cc h, g)
    approved_by gives_up h = absurd (cc h)
