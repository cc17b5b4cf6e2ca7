-- ===== src/Opener/Bridge/Safe.antt =====
-- What the maps of crates/forward/src/bridge/armed.rs keep, however arming, holding and connecting
-- follow each other.
use forward.Prelude.{
  ℕ, ◌≡◌, refl, sym, ◌∙◌, ◌⊎◌, Bool, true, false, not, Option, none, some, List, [], ◌∷◌, arith,
  ltb, ◌==◌, if◌then◌else◌, All, All-retain, find, retain, any-retain-eq_false, update_first,
  checked_add, Bool-cases, inl, inr,
}
use mathlib.Core.Path.{subst}
use forward.Opener.Ports.{ServiceConfig, can_arm}
use forward.Opener.Bridge.{
  Entry, Armed, new, is_at, contains_key, remove, later, arm_entry, release_if, release, arm_free,
  arm_at, arm_until, arm, is_armed, hold_free, hold_at, hold, Dial, dial_connected,
  dial_unreachable, dial_gone, dialled, connect_at, connect,
}

-- Every key may be armed, and a port with a holder has no lease: a held port has exactly one route.
pub record IsSafe (a : Armed) : Type 0 where
  pub leases : All (λ e. can_arm a.cfg e.port ≡ true) a.ports
  pub holds : All (λ e. can_arm a.cfg e.port ≡ true) a.holders
  pub one_route :
      (port : ℕ) → contains_key port a.holders ≡ true → contains_key port a.ports ≡ false

module _ (P : ℕ → Type 0) where
  All-update :
      (port deadline : ℕ) (es : List Entry)
      → All (λ e. P e.port) es
      → All (λ e. P e.port) (update_first (is_at port) (later deadline) es)
  All-update port deadline [] h = tt
  All-update port deadline (e ∷ es) h = elim (Bool-cases (is_at port e)) [
    | inl at ↦ rw at (moved (Bool-cases (ltb e.value deadline)), h.1)
    | inr other ↦ rw other (h.0, All-update port deadline es h.1)
  ]
    where
      moved :
          (ltb e.value deadline ≡ true) ⊎ (ltb e.value deadline ≡ false) → P (later deadline e).port
      moved (inl x) = rw x h.0
      moved (inr x) = rw x h.0

contains-update :
    (q port deadline : ℕ) (es : List Entry)
    → contains_key q (update_first (is_at port) (later deadline) es) ≡ contains_key q es
contains-update q port deadline [] = refl
contains-update q port deadline (e ∷ es) =
    let rest = contains-update q port deadline es in ground (arith, rest)

contains-find :
    (port : ℕ) (es : List Entry) → find (is_at port) es ≡ none → contains_key port es ≡ false
contains-find port [] h = refl
contains-find port (e ∷ es) h = ground (arith, contains-find port es)

contains-remove : (port : ℕ) (es : List Entry) → contains_key port (remove port es) ≡ false
contains-remove port es =
    any-retain-eq_false (is_at port) (λ e. not (is_at port e)) es (λ e h. ground arith)

-- What is removed was there before.
contains-retain :
    (q : ℕ) (p : Entry → Bool) (es : List Entry)
    → contains_key q (retain p es) ≡ true
    → contains_key q es ≡ true
contains-retain q p [] h = h
contains-retain q p (e ∷ es) h = ground (arith, contains-retain q p es)

absent-retain :
    (q : ℕ) (p : Entry → Bool) (es : List Entry)
    → contains_key q es ≡ false
    → contains_key q (retain p es) ≡ false
absent-retain q p [] h = h
absent-retain q p (e ∷ es) h = ground (arith, absent-retain q p es)

absent-arm_entry :
    (q port deadline : ℕ) (es : List Entry)
    → (q == port) ≡ false
    → contains_key q es ≡ false
    → contains_key q (arm_entry port deadline es) ≡ false
absent-arm_entry q port deadline es other h = elim (Bool-cases (contains_key port es)) [
  | inl old ↦ rw old (contains-update q port deadline es ∙ h)
  | inr fresh ↦ rw fresh (ground arith)
]

All-arm_entry :
    (P : ℕ → Type 0) (port deadline : ℕ) (es : List Entry)
    → P port
    → All (λ e. P e.port) es
    → All (λ e. P e.port) (arm_entry port deadline es)
All-arm_entry P port deadline es new_one h = elim (Bool-cases (contains_key port es)) [
  | inl old ↦ rw old (All-update P port deadline es h)
  | inr fresh ↦ rw fresh (new_one, h)
]

-- A key that is there differs from one that is not.
apart :
    (q port : ℕ) (es : List Entry)
    → contains_key q es ≡ true
    → contains_key port es ≡ false
    → (q == port) ≡ false
apart q port [] h absent = absurd (cc h)
apart q port (e ∷ es) h absent = ground (arith, apart q port es)

release-IsSafe : (port holder : ℕ) (a : Armed) → IsSafe a → IsSafe (release port holder a)
unfolding release
release-IsSafe port holder a safe = released (find (is_at port) a.holders)
  where
    dropped :
        (b : Bool) → IsSafe (record a { holders = if b then remove port a.holders else a.holders })
    dropped true = record {
      leases = safe.leases;
      holds =
          All-retain (λ e. can_arm a.cfg e.port ≡ true) (λ e. not (is_at port e)) a.holders
            safe.holds;
      one_route = λ q h. safe.one_route q (contains-retain q (λ e. not (is_at port e)) a.holders h);
    }
    dropped false = safe

    released :
        (o : Option Entry) → IsSafe (record a { holders = release_if port o holder a.holders })
    released none = safe
    released (some e) = dropped (e.value == holder)

-- The holder that the map has for a port is the one that goes.
release-found :
    (port : ℕ) (e : Entry) (a : Armed)
    → find (is_at port) a.holders ≡ some e
    → contains_key port (release port e.value a).holders ≡ false
unfolding release
release-found port e a h =
    let own : (e.value == e.value) ≡ true = ground arith in
    rw (h, own) (contains-remove port a.holders)

arm_free-IsSafe :
    (port deadline : ℕ) (a : Armed)
    → can_arm a.cfg port ≡ true
    → contains_key port a.holders ≡ false
    → IsSafe a
    → IsSafe (arm_free port deadline a).0
unfolding arm_free
arm_free-IsSafe port deadline a allowed free safe = record {
  leases = All-arm_entry (λ p. can_arm a.cfg p ≡ true) port deadline a.ports allowed safe.leases;
  holds = safe.holds;
  one_route = λ q h.
      absent-arm_entry q port deadline a.ports (apart q port a.holders h free) (safe.one_route q h);
}

arm-IsSafe :
    (is_alive : ℕ → Bool) (port ttl now : ℕ) (a : Armed)
    → IsSafe a
    → IsSafe (arm is_alive port ttl now a).0
unfolding arm arm_until arm_at release
arm-IsSafe is_alive port ttl now a safe = elim (Bool-cases (can_arm a.cfg port)) [
  | inr refused ↦ rw refused safe
  | inl allowed ↦ rw allowed (until allowed (checked_add now ttl))
]
  where
    at :
        (deadline : ℕ) (o : Option Entry)
        → can_arm a.cfg port ≡ true
        → find (is_at port) a.holders ≡ o
        → IsSafe (arm_at is_alive port deadline o a).0
    at deadline none allowed h =
        arm_free-IsSafe port deadline a allowed (contains-find port a.holders h) safe
    at deadline (some e) allowed h = elim (Bool-cases (is_alive e.value)) [
      | inl alive ↦ rw alive safe
      | inr dead ↦ rw dead (
          arm_free-IsSafe port deadline (release port e.value a) allowed (release-found port e a h)
            (release-IsSafe port e.value a safe))
    ]

    until : can_arm a.cfg port ≡ true → (o : Option ℕ) → IsSafe (arm_until is_alive port o a).0
    until allowed none = safe
    until allowed (some deadline) = at deadline (find (is_at port) a.holders) allowed refl

is_armed-IsSafe : (port now : ℕ) (a : Armed) → IsSafe a → IsSafe (is_armed port now a).0
unfolding is_armed
is_armed-IsSafe port now a safe = record {
  leases = All-retain (λ e. can_arm a.cfg e.port ≡ true) (λ e. ltb now e.value) a.ports safe.leases;
  holds = safe.holds;
  one_route = λ q h. absent-retain q (λ e. ltb now e.value) a.ports (safe.one_route q h);
}

hold_free-IsSafe :
    (acknowledged : Bool) (port holder : ℕ) (a : Armed)
    → can_arm a.cfg port ≡ true
    → IsSafe a
    → IsSafe (hold_free acknowledged port holder a).0
unfolding hold_free
hold_free-IsSafe false port holder a allowed safe = safe
hold_free-IsSafe true port holder a allowed safe = record {
  leases =
      All-retain (λ e. can_arm a.cfg e.port ≡ true) (λ e. not (is_at port e)) a.ports safe.leases;
  holds = (allowed, safe.holds);
  one_route = λ q h. elim (Bool-cases (q == port)) [
    | inl same ↦
        let is : q ≡ port = ground arith in
        subst (λ p. contains_key p (remove port a.ports) ≡ false) (sym is)
          (contains-remove port a.ports)
    | inr other ↦
        absent-retain q (λ e. not (is_at port e)) a.ports (safe.one_route q (ground arith))
  ];
}

hold-IsSafe :
    (is_alive : ℕ → Bool) (acknowledged : Bool) (port holder : ℕ) (a : Armed)
    → IsSafe a
    → IsSafe (hold is_alive acknowledged port holder a).0
unfolding hold hold_at release
hold-IsSafe is_alive acknowledged port holder a safe = elim (Bool-cases (can_arm a.cfg port)) [
  | inr refused ↦ rw refused safe
  | inl allowed ↦ rw allowed (at allowed (find (is_at port) a.holders))
]
  where
    at :
        can_arm a.cfg port ≡ true
        → (o : Option Entry) → IsSafe (hold_at is_alive acknowledged port holder o a).0
    at allowed none = hold_free-IsSafe acknowledged port holder a allowed safe
    at allowed (some e) = elim (Bool-cases (is_alive e.value)) [
      | inl alive ↦ rw alive safe
      | inr dead ↦ rw dead (
          hold_free-IsSafe acknowledged port holder (release port e.value a) allowed
            (release-IsSafe port e.value a safe))
    ]

connect-IsSafe :
    (dial : ℕ → Dial) (accepts : Bool) (port now : ℕ) (a : Armed)
    → IsSafe a
    → IsSafe (connect dial accepts port now a).0
unfolding connect connect_at dialled
connect-IsSafe dial accepts port now a safe = at (find (is_at port) a.holders)
  where
    answered : (e : Entry) (d : Dial) → IsSafe (dialled d port e.value a).0
    answered e dial_connected = safe
    answered e dial_unreachable = safe
    answered e dial_gone = release-IsSafe port e.value a safe

    at : (o : Option Entry) → IsSafe (connect_at dial accepts port now o a).0
    at none = elim (Bool-cases (is_armed port now a).1) [
      | inl yes_armed ↦ rw yes_armed (is_armed-IsSafe port now a safe)
      | inr not_armed ↦ rw not_armed (is_armed-IsSafe port now a safe)
    ]
    at (some e) = answered e (dial e.value)

-- What a bridge can come to from its start.
pub data Reached (cfg : ServiceConfig) : Armed → Type 0 where
  start : Reached cfg (new cfg)
  arms :
      {a : Armed} (is_alive : ℕ → Bool) (port ttl now : ℕ)
      → Reached cfg a
      → Reached cfg (arm is_alive port ttl now a).0
  holds :
      {a : Armed} (is_alive : ℕ → Bool) (acknowledged : Bool) (port holder : ℕ)
      → Reached cfg a
      → Reached cfg (hold is_alive acknowledged port holder a).0
  connects :
      {a : Armed} (dial : ℕ → Dial) (accepts : Bool) (port now : ℕ)
      → Reached cfg a
      → Reached cfg (connect dial accepts port now a).0

-- However arming, holding and connecting follow each other from the start: every port that has a
-- lease or a holder is one that the policy lets be armed, and a port with a holder has no lease.
pub reached-IsSafe : (cfg : ServiceConfig) (a : Armed) → Reached cfg a → IsSafe a
reached-IsSafe cfg a start = record { leases = tt; holds = tt; one_route = λ port h. refl }
reached-IsSafe cfg _ (arms {a} is_alive port ttl now before) =
    arm-IsSafe is_alive port ttl now a (reached-IsSafe cfg a before)
reached-IsSafe cfg _ (holds {a} is_alive acknowledged port holder before) =
    hold-IsSafe is_alive acknowledged port holder a (reached-IsSafe cfg a before)
reached-IsSafe cfg _ (connects {a} dial accepts port now before) =
    connect-IsSafe dial accepts port now a (reached-IsSafe cfg a before)
