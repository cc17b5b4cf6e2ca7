-- ===== src/Opener/Bridge/Reaches.antt =====
-- Where a connection that crates/forward/src/bridge/armed.rs makes can go.
use forward.Prelude.{
  ℕ, ◌≤◌, ◌≡◌, refl, ◌∙◌, Bool, true, false, Option, none, some, List, [], ◌∷◌, arith, ltb, All,
  find, retain, checked_add, Bool-cases, inl, inr,
}
use mathlib.Core.Path.{subst}
use forward.Opener.Ports.{
  ServiceConfig, contains, service_ports, lethal_development_ports, globally_denied, can_arm,
}
use forward.Opener.Bridge.{
  Entry, Armed, is_at, contains_key, release, arm_free, arm_at, arm_until, arm, is_armed, hold_free,
  hold_at, hold, Dial, dial_connected, dial_unreachable, dial_gone, Upstream, through_holder,
  to_loopback, unarmed, dialled, connect_at, connect,
}
use forward.Opener.Bridge.Safe.{IsSafe, Reached, reached-IsSafe, start, arms, holds, connects}

module _ (is_alive : ℕ → Bool) (port deadline : ℕ) where
  arm_at-cfg : (o : Option Entry) (a : Armed) → (arm_at is_alive port deadline o a).0.cfg ≡ a.cfg
  unfolding arm_at arm_free release
  arm_at-cfg none a = refl
  arm_at-cfg (some e) a = ground arith

module _ (is_alive : ℕ → Bool) (acknowledged : Bool) (port holder : ℕ) where
  hold_at-cfg :
      (o : Option Entry) (a : Armed) → (hold_at is_alive acknowledged port holder o a).0.cfg ≡ a.cfg
  unfolding hold_at hold_free release
  hold_at-cfg none a = ground arith
  hold_at-cfg (some e) a = ground arith

arm-cfg :
    (is_alive : ℕ → Bool) (port ttl now : ℕ) (a : Armed)
    → (arm is_alive port ttl now a).0.cfg ≡ a.cfg
unfolding arm arm_until
arm-cfg is_alive port ttl now a = elim (Bool-cases (can_arm a.cfg port)) [
  | inr refused ↦ rw refused refl
  | inl allowed ↦ rw allowed (until (checked_add now ttl))
]
  where
    until : (o : Option ℕ) → (arm_until is_alive port o a).0.cfg ≡ a.cfg
    until none = refl
    until (some deadline) = arm_at-cfg is_alive port deadline (find (is_at port) a.holders) a

hold-cfg :
    (is_alive : ℕ → Bool) (acknowledged : Bool) (port holder : ℕ) (a : Armed)
    → (hold is_alive acknowledged port holder a).0.cfg ≡ a.cfg
unfolding hold
hold-cfg is_alive acknowledged port holder a = elim (Bool-cases (can_arm a.cfg port)) [
  | inr refused ↦ rw refused refl
  | inl allowed ↦
      rw allowed (hold_at-cfg is_alive acknowledged port holder (find (is_at port) a.holders) a)
]

connect-cfg :
    (dial : ℕ → Dial) (accepts : Bool) (port now : ℕ) (a : Armed)
    → (connect dial accepts port now a).0.cfg ≡ a.cfg
unfolding connect connect_at dialled is_armed release
connect-cfg dial accepts port now a = at (find (is_at port) a.holders)
  where
    answered : (e : Entry) (d : Dial) → (dialled d port e.value a).0.cfg ≡ a.cfg
    answered e dial_connected = refl
    answered e dial_unreachable = refl
    answered e dial_gone = refl

    at : (o : Option Entry) → (connect_at dial accepts port now o a).0.cfg ≡ a.cfg
    at none = ground arith
    at (some e) = answered e (dial e.value)

cfg_stays : (cfg : ServiceConfig) (a : Armed) → Reached cfg a → a.cfg ≡ cfg
cfg_stays cfg a start = refl
cfg_stays cfg _ (arms {a} is_alive port ttl now before) =
    arm-cfg is_alive port ttl now a ∙ cfg_stays cfg a before
cfg_stays cfg _ (holds {a} is_alive acknowledged port holder before) =
    hold-cfg is_alive acknowledged port holder a ∙ cfg_stays cfg a before
cfg_stays cfg _ (connects {a} dial accepts port now before) =
    connect-cfg dial accepts port now a ∙ cfg_stays cfg a before

-- A connection that is made.
pub data IsMade : Upstream → Type 0 where
  by_holder : {h : ℕ} → IsMade (through_holder h)
  by_lease : IsMade to_loopback

-- A key that a list has is a port of one of its entries.
All-contains :
    (P : ℕ → Type 0) (port : ℕ) (es : List Entry)
    → All (λ e. P e.port) es
    → contains_key port es ≡ true
    → P port
All-contains P port [] h found = absurd (cc found)
All-contains P port (e ∷ es) h found = elim (Bool-cases (is_at port e)) [
  | inl at ↦ let same : e.port ≡ port = ground arith in subst P same h.0
  | inr other ↦ All-contains P port es h.1 (ground arith)
]

contains-live :
    (port now : ℕ) (es : List Entry)
    → contains_key port (retain (λ e. ltb now e.value) es) ≡ true
    → contains_key port es ≡ true
contains-live port now [] h = h
contains-live port now (e ∷ es) h = ground (arith, contains-live port now es)

found-contains :
    (port : ℕ) (es : List Entry) (e : Entry)
    → find (is_at port) es ≡ some e
    → contains_key port es ≡ true
found-contains port [] e h = absurd (cc h)
found-contains port (d ∷ es) e h = ground (arith, found-contains port es e)

connect-allowed :
    (dial : ℕ → Dial) (accepts : Bool) (port now : ℕ) (a : Armed)
    → IsSafe a
    → IsMade (connect dial accepts port now a).1
    → can_arm a.cfg port ≡ true
unfolding connect connect_at dialled is_armed
connect-allowed dial accepts port now a safe made = at (find (is_at port) a.holders) refl made
  where
    at :
        (o : Option Entry)
        → find (is_at port) a.holders ≡ o
        → IsMade (connect_at dial accepts port now o a).1
        → can_arm a.cfg port ≡ true
    at (some e) found m =
        All-contains (λ p. can_arm a.cfg p ≡ true) port a.holders safe.holds
          (found-contains port a.holders e found)
    at none found m = elim (Bool-cases (is_armed port now a).1) [
      | inl armed ↦
          All-contains (λ p. can_arm a.cfg p ≡ true) port a.ports safe.leases
            (contains-live port now a.ports armed)
      | inr not_armed ↦ absurd (refuse not_armed m)
    ]
      where
        nowhere :
            (is_armed port now a).1 ≡ false → (connect_at dial accepts port now none a).1 ≡ unarmed
        nowhere e = rw e refl

        refuse :
            (is_armed port now a).1 ≡ false → IsMade (connect_at dial accepts port now none a).1 → ⊥
        refuse e m' = elim (subst IsMade (nowhere e) m') [ ]

-- Wherever the bridge makes a connection, however the steps before it went, the port is at least
-- 1024, none of the services' own, and none of the debuggers' and databases' that the policy lists.
pub connections_are_allowed :
    (cfg : ServiceConfig) (dial : ℕ → Dial) (accepts : Bool) (port now : ℕ) (a : Armed)
    → Reached cfg a
    → IsMade (connect dial accepts port now a).1
    → (1024 ≤ port)
      × (contains port (service_ports cfg) ≡ false)
      × (contains port lethal_development_ports ≡ false)
unfolding can_arm globally_denied
connections_are_allowed cfg dial accepts port now a before made =
    let allowed : can_arm cfg port ≡ true =
      subst (λ c. can_arm c port ≡ true) (cfg_stays cfg a before)
        (connect-allowed dial accepts port now a (reached-IsSafe cfg a before) made) in
    (ground arith, ground arith, ground arith)
