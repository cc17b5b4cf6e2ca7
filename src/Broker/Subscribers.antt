-- ===== src/Broker/Subscribers.antt =====
-- crates/secrets/src/server/subscribers.rs: the peers that are told of every LOCK. A subscriber has the
-- epoch of the event it was sent last; whether a socket takes a whole line is what the system answers,
-- an argument. `attach` and `publish_current` each hold the hub's lock throughout; a LOCK changes the
-- epoch before it publishes, and others may come between.
use forward.Prelude.{
  ℕ, suc, ◌≤◌, ◌≡◌, refl, Bool, true, false, not, ◌&&◌, Option, none, some, List, [], ◌∷◌, ◌++◌,
  arith, leb, ◌==◌, if◌then◌else◌, retain, length, length-append, length-retain-le, All, All-append,
  All-retain, Bool-cases, inl, inr, saturating_add,
}
use forward.Containment.{Kernel, PinnedPeer, pid, is_alive}

pub record Subscriber : Type 0 where
  pub peer : PinnedPeer
  pub told : ℕ

abbrev pub subscriber_capacity : ℕ
subscriber_capacity = 8

abbrev pub pid_eq : Option ℕ → Option ℕ → Bool
pid_eq none none = true
pid_eq none (some q) = false
pid_eq (some p) none = false
pid_eq (some p) (some q) = p == q

-- A peer that lives and is not the one that comes back.
abbrev pub stays : Kernel → PinnedPeer → Subscriber → Bool
stays k peer s = is_alive k s.peer && not (pid_eq (pid k s.peer) (pid k peer))

-- A peer whose socket did not take its first event is no subscriber.
unfoldable pub pushed : Bool → PinnedPeer → ℕ → List Subscriber → List Subscriber × Bool
pushed true peer epoch subscribers =
    (subscribers ++ record { peer = peer; told = epoch } ∷ [], true)
pushed false peer epoch subscribers = (subscribers, false)

unfoldable pub attach_left : Bool → PinnedPeer → ℕ → List Subscriber → List Subscriber × Bool
attach_left written peer epoch subscribers =
    if leb subscriber_capacity (length subscribers)
    then (subscribers, false)
    else pushed written peer epoch subscribers

-- `attach`, at the epoch that it reads, and whether the peer is now a subscriber.
unfoldable pub attach : Kernel → Bool → PinnedPeer → ℕ → List Subscriber → List Subscriber × Bool
attach k written peer epoch subscribers =
    attach_left written peer epoch (retain (stays k peer) subscribers)

-- `publish_current`, at the epoch that it reads: who lives and takes the line stays.
unfoldable pub publish_current :
    Kernel → (PinnedPeer → Bool) → ℕ → List Subscriber → List Subscriber
publish_current k writes epoch [] = []
publish_current k writes epoch (s ∷ subscribers) =
    let rest = publish_current k writes epoch subscribers in
    if is_alive k s.peer && writes s.peer then record s { told = epoch } ∷ rest else rest

-- The hub with the lock epoch, and how many LOCKs have yet to publish.
pub record Hub : Type 0 where
  pub subscribers : List Subscriber
  pub epoch : ℕ
  pub owed : ℕ

pub data HubStep : Hub → Hub → Type 0 where
  locks : {h : Hub} → HubStep h (record h { epoch = saturating_add h.epoch 1; owed = suc h.owed })
  publishes :
      {h : Hub} {n : ℕ} (k : Kernel) (writes : PinnedPeer → Bool)
      → h.owed ≡ suc n
      → HubStep h
          (record h { subscribers = publish_current k writes h.epoch h.subscribers; owed = n })
  attaches :
      {h : Hub} (k : Kernel) (written : Bool) (peer : PinnedPeer)
      → HubStep h (record h { subscribers = (attach k written peer h.epoch h.subscribers).0 })

pub data HubReached : Hub → Type 0 where
  start : HubReached (record { subscribers = []; epoch = 0; owed = 0 })
  after : {h h' : Hub} → HubReached h → HubStep h h' → HubReached h'

abbrev IsTold : Hub → Type 0
IsTold h = All (λ s. s.told ≡ h.epoch) h.subscribers

told_all :
    (k : Kernel) (writes : PinnedPeer → Bool) (epoch : ℕ) (subscribers : List Subscriber)
    → All (λ s. s.told ≡ epoch) (publish_current k writes epoch subscribers)
unfolding publish_current
told_all k writes epoch [] = tt
told_all k writes epoch (s ∷ subscribers) = elim (Bool-cases (is_alive k s.peer && writes s.peer)) [
  | inl sent ↦ rw sent (refl, told_all k writes epoch subscribers)
  | inr gone ↦ rw gone (told_all k writes epoch subscribers)
]

attach-told :
    (k : Kernel) (written : Bool) (peer : PinnedPeer) (epoch : ℕ) (subscribers : List Subscriber)
    → All (λ s. s.told ≡ epoch) subscribers
    → All (λ s. s.told ≡ epoch) (attach k written peer epoch subscribers).0
unfolding attach attach_left pushed
attach-told k written peer epoch subscribers h =
    let kept : All (λ s. s.told ≡ epoch) (retain (stays k peer) subscribers) =
      All-retain (λ s. s.told ≡ epoch) (stays k peer) subscribers h in
    elim (Bool-cases (leb subscriber_capacity (length (retain (stays k peer) subscribers)))) [
      | inl full ↦ rw full kept
      | inr room ↦ rw room (told written kept)
    ]
  where
    told :
        (b : Bool)
        → All (λ s. s.told ≡ epoch) (retain (stays k peer) subscribers)
        → All (λ s. s.told ≡ epoch) (pushed b peer epoch (retain (stays k peer) subscribers)).0
    told true kept =
        All-append (λ s. s.told ≡ epoch) (retain (stays k peer) subscribers)
          (record { peer = peer; told = epoch } ∷ []) kept (refl, tt)
    told false kept = kept

attach-length :
    (k : Kernel) (written : Bool) (peer : PinnedPeer) (epoch : ℕ) (subscribers : List Subscriber)
    → length subscribers ≤ subscriber_capacity
    → length (attach k written peer epoch subscribers).0 ≤ subscriber_capacity
unfolding attach attach_left pushed
attach-length k written peer epoch subscribers fits =
    let fewer = length-retain-le (stays k peer) subscribers in
    let one_more =
      length-append (retain (stays k peer) subscribers)
        (record { peer = peer; told = epoch } ∷ []) in
    ground (arith, fewer, one_more)

publish-length :
    (k : Kernel) (writes : PinnedPeer → Bool) (epoch : ℕ) (subscribers : List Subscriber)
    → length (publish_current k writes epoch subscribers) ≤ length subscribers
unfolding publish_current
publish-length k writes epoch [] = omega arith
publish-length k writes epoch (s ∷ subscribers) =
    ground (arith, publish-length k writes epoch subscribers)

hub_invariant :
    {h : Hub}
    → HubReached h
    → ((h.owed ≡ 0 → IsTold h)) × (length h.subscribers ≤ subscriber_capacity)
hub_invariant start = ((λ e. tt), omega arith)
hub_invariant (after before (locks {h})) =
    let (told, fits) = hub_invariant before in ((λ e. absurd (omega (arith, e))), fits)
hub_invariant (after before (publishes {h} k writes owed)) =
    let (told, fits) = hub_invariant before in
    (
      (λ e. told_all k writes h.epoch h.subscribers),
      omega (arith, fits, publish-length k writes h.epoch h.subscribers),
    )
hub_invariant (after before (attaches {h} k written peer)) =
    let (told, fits) = hub_invariant before in
    (
      (λ e. attach-told k written peer h.epoch h.subscribers (told e)),
      attach-length k written peer h.epoch h.subscribers fits,
    )

-- No subscriber misses a LOCK: however LOCKs, their publications and attachments interleave, once no
-- publication is outstanding the last event that each subscriber was sent names the current epoch; and
-- there are never more than eight subscribers.
pub subscribers_are_told :
    (h : Hub)
    → HubReached h
    → h.owed ≡ 0
    → All (λ s. s.told ≡ h.epoch) h.subscribers × (length h.subscribers ≤ subscriber_capacity)
subscribers_are_told h path done_all =
    let (told, fits) = hub_invariant path in (told done_all, fits)
