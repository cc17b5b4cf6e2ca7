-- ===== src/Opener/Callback/Kept.antt =====
-- What crates/forward/src/callback/lease.rs keeps of its leases.
use forward.Prelude.{
  ℕ, zero, suc, ◌+◌, ◌-◌, ◌≤◌, ◌≡◌, ◌≢◌, refl, ap, ◌∙◌, ◌⊎◌, true, false, not, none, some, List, [],
  ◌∷◌, arith, ◌==◌, find, retain, update_first, Bool-cases, inl, inr, find-retain-eq_none,
}
use forward.Opener.Callback.{
  SocketAddr, addr_eq, Lease, Leases, live, releasing, owned, is_at, is_stopped, lease_at, extend,
  refresh_lease, refresh, insert, less_one, release_listener, release_lease, release, serve_peer,
  owned_by,
}

abbrev LiveOwner : ℕ → Leases → Lease → Type 0
LiveOwner port t lease = (lease_at port t ≡ some lease) × (is_stopped lease.stop t ≡ false)

find-update :
    (port : ℕ) (f : Lease → Lease) (ls : List Lease) (lease : Lease)
    → find (is_at port) ls ≡ some lease
    → ((l : Lease) → (f l).key ≡ l.key)
    → find (is_at port) (update_first (is_at port) f ls) ≡ some (f lease)
find-update port f [] lease h keeps = absurd (cc h)
find-update port f (l ∷ ls) lease h keeps = elim (Bool-cases (is_at port l)) [
  | inl e ↦
      let same : l ≡ lease = ground arith in
      let kept : is_at port (f l) ≡ true = ap (λ k. k == port) (keeps l) ∙ e in
      rw (e, kept) (ap (λ l. some (f l)) same)
  | inr e ↦ let rest = find-update port f ls lease (ground arith) keeps in rw (e, e) rest
]

extend-keeps : (deadline : ℕ) (l : Lease) → (extend deadline l).key ≡ l.key
extend-keeps deadline l = ground arith

-- Who owns a live lease keeps it: a refresh by another address answers with the owner and changes
-- nothing; one by the owner keeps the owner and the listeners, and never brings the deadline forward.
pub refresh-live :
    (port : ℕ) (owner : SocketAddr) (ttl now : ℕ) (t : Leases) (lease : Lease)
    → lease_at port t ≡ some lease
    → is_stopped lease.stop t ≡ false
    → ((addr_eq lease.owner owner ≡ false)
        × (refresh port owner ttl now t ≡ (t, owned lease.owner)))
      ⊎ ((addr_eq lease.owner owner ≡ true)
          × ((refresh port owner ttl now t).1 ≡ live)
          × (lease' : Lease) × (lease_at port (refresh port owner ttl now t).0 ≡ some lease')
          × (lease'.owner ≡ lease.owner)
          × (lease'.listeners ≡ lease.listeners)
          × (lease.deadline ≤ lease'.deadline)
          × (now + ttl ≤ lease'.deadline))
unfolding refresh refresh_lease
refresh-live port owner ttl now t lease at running = elim (Bool-cases (addr_eq lease.owner owner)) [
  | inr other ↦ inl (other, rw (at, running, other) refl)
  | inl own ↦ inr (
    own,
    rw (at, running, own) refl,
    extend (now + ttl) lease,
    rw (at, running, own)
        (find-update port (extend (now + ttl)) t.inner lease at (extend-keeps (now + ttl))),
    ground arith,
    ground arith,
    ground arith,
    ground arith,
  )
]

-- A lease that was stopped, or that the port does not have, is not refreshed.
refresh-gone :
    (port : ℕ) (owner : SocketAddr) (ttl now : ℕ) (t : Leases) (lease : Lease)
    → lease_at port t ≡ some lease
    → is_stopped lease.stop t ≡ true
    → refresh port owner ttl now t ≡ (t, releasing)
unfolding refresh refresh_lease
refresh-gone port owner ttl now t lease at gone = rw (at, gone) refl

find-inserted :
    (port : ℕ) (owner : SocketAddr) (ttl stop listeners now : ℕ) (t : Leases)
    → lease_at port (insert port owner ttl stop listeners now t)
      ≡ some (record {
        key = port;
        owner = owner;
        deadline = now + ttl;
        listeners = listeners;
        stop = stop;
      })
unfolding insert
find-inserted port owner ttl stop listeners now t = ground arith

removed :
    (port : ℕ) (ls : List Lease) → find (is_at port) (retain (λ l. not (is_at port l)) ls) ≡ none
removed port ls =
    find-retain-eq_none (is_at port) (λ l. not (is_at port l)) ls (λ l h. ground arith)

-- The listeners of a lease let go of it one by one: all but the last leave it in place.
abbrev pub release_times : ℕ → ℕ → ℕ → Leases → Leases
release_times zero port stop t = t
release_times (suc n) port stop t = release_times n port stop (release port stop t).0

less_one-keeps : (l : Lease) → (less_one l).key ≡ l.key
less_one-keeps l = refl

release-early :
    (port : ℕ) (t : Leases) (lease : Lease)
    → lease_at port t ≡ some lease
    → 2 ≤ lease.listeners
    → ((release port lease.stop t).1 ≡ false)
      × (lease_at port (release port lease.stop t).0 ≡ some (less_one lease))
      × ((release port lease.stop t).0.stopped ≡ t.stopped)
unfolding release release_lease release_listener
release-early port t lease at many =
    let own : (lease.stop == lease.stop) ≡ true = ground arith in
    let more : (lease.listeners - 1 == 0) ≡ false = ground arith in
    (
      rw (at, own, more) refl,
      rw (at, own, more) (find-update port less_one t.inner lease at less_one-keeps),
      rw (at, own, more) refl,
    )

release-last :
    (port : ℕ) (t : Leases) (lease : Lease)
    → lease_at port t ≡ some lease
    → lease.listeners ≡ 1
    → ((release port lease.stop t).1 ≡ true)
      × (lease_at port (release port lease.stop t).0 ≡ none)
      × (is_stopped lease.stop (release port lease.stop t).0 ≡ true)
unfolding release release_lease release_listener
release-last port t lease at one =
    let own : (lease.stop == lease.stop) ≡ true = ground arith in
    let last : (lease.listeners - 1 == 0) ≡ true = ground arith in
    (
      rw (at, own, last) refl,
      rw (at, own, last) (removed port t.inner),
      rw (at, own, last) (ground arith),
    )

-- A lease with n + 1 listeners is there until the last of them lets go: after n releases by its stop
-- flag it is still the port's, with one listener, and the next release answers that it was the last,
-- removes the lease and sets the flag.
pub release_times-last :
    (n port : ℕ) (t : Leases) (lease : Lease)
    → lease_at port t ≡ some lease
    → lease.listeners ≡ suc n
    → (lease_at port (release_times n port lease.stop t) ≡ some (record lease { listeners = 1 }))
      × ((release port lease.stop (release_times n port lease.stop t)).1 ≡ true)
      × (lease_at port (release port lease.stop (release_times n port lease.stop t)).0 ≡ none)
      × (is_stopped lease.stop (release port lease.stop (release_times n port lease.stop t)).0
          ≡ true)
release_times-last zero port t lease at count =
    let (answer, gone, set) = release-last port t lease at (omega (arith, count)) in
    (at ∙ ap (λ n. some (record lease { listeners = n })) count, answer, gone, set)
release_times-last (suc n) port t lease at count =
    let (answer, kept, stopped) = release-early port t lease at (omega (arith, count)) in
    release_times-last n port (release port lease.stop t).0 (less_one lease) kept
      (omega (arith, count))

-- A listener whose lease another one replaced changes nothing.
pub release-replaced :
    (port : ℕ) (owner : SocketAddr) (ttl stop listeners now : ℕ) (t : Leases) (lease : Lease)
    → lease_at port t ≡ some lease
    → lease.stop ≢ stop
    → (release port lease.stop (insert port owner ttl stop listeners now t)
        ≡ (insert port owner ttl stop listeners now t, false))
      × (is_stopped lease.stop (insert port owner ttl stop listeners now t) ≡ true)
unfolding release release_lease insert
release-replaced port owner ttl stop listeners now t lease at other =
    let differs : (stop == lease.stop) ≡ false = ground arith in
    (rw (find-inserted port owner ttl stop listeners now t, differs) refl, rw at (ground arith))

-- A callback URL from one peer neither renews nor replaces the lease that another peer has on the
-- port: serving it answers with the owner and changes nothing.
pub serve_peer-owned :
    (peer bridge_port port ttl now : ℕ) (t : Leases) (lease : Lease)
    → 1 ≤ port
    → lease_at port t ≡ some lease
    → is_stopped lease.stop t ≡ false
    → addr_eq lease.owner (record { ip = peer; port = bridge_port }) ≡ false
    → serve_peer (some peer) bridge_port port ttl now t ≡ (t, owned_by lease.owner)
unfolding serve_peer refresh refresh_lease
serve_peer-owned peer bridge_port port ttl now t lease named at running other =
    let not_any : (port == 0) ≡ false = ground arith in rw (not_any, at, running, other) refl
