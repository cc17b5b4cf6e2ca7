-- ===== src/Opener/Callback.antt =====
-- The callback leases of crates/forward/src/callback/lease.rs, and how crates/forward/src/callback.rs
-- serves a port. A stop flag is an `Arc<AtomicBool>`, here a number; the flags that are set are kept
-- beside the leases. The map of the leases is a list with one lease of a port.
pub mod Kept
use forward.Prelude.{
  ℕ, suc, ◌+◌, ◌-◌, ◌≤◌, ◌≡◌, Bool, true, false, not, ◌&&◌, ◌||◌, Option, none, some, List, [], ◌∷◌,
  ltb, leb, ◌==◌, if◌then◌else◌, find, any, retain, update_first,
}

pub record SocketAddr : Type 0 where
  pub ip : ℕ
  pub port : ℕ

abbrev pub addr_eq : SocketAddr → SocketAddr → Bool
addr_eq a b = a.ip == b.ip && a.port == b.port

pub record Lease : Type 0 where
  pub key : ℕ
  pub owner : SocketAddr
  pub deadline : ℕ
  pub listeners : ℕ
  pub stop : ℕ

pub record Leases : Type 0 where
  pub inner : List Lease
  pub stopped : List ℕ

pub data Refresh : Type 0 where
  live releasing absent : Refresh
  owned : SocketAddr → Refresh

-- `Leases::new`
abbrev pub empty : Leases
empty = record { inner = []; stopped = [] }

abbrev pub is_at : ℕ → Lease → Bool
is_at port lease = lease.key == port

abbrev pub is_stopped : ℕ → Leases → Bool
is_stopped stop t = any (λ s. s == stop) t.stopped

abbrev pub lease_at : ℕ → Leases → Option Lease
lease_at port t = find (is_at port) t.inner

-- The later of two deadlines.
abbrev pub extend : ℕ → Lease → Lease
extend deadline lease =
    if ltb lease.deadline deadline then record lease { deadline = deadline } else lease

unfoldable pub refresh_lease : ℕ → SocketAddr → ℕ → Option Lease → Leases → Leases × Refresh
refresh_lease port owner deadline none t = (t, absent)
refresh_lease port owner deadline (some lease) t =
    if is_stopped lease.stop t
    then (t, releasing)
    else if addr_eq lease.owner owner
    then (record t { inner = update_first (is_at port) (extend deadline) t.inner }, live)
    else (t, owned lease.owner)

unfoldable pub refresh : ℕ → SocketAddr → ℕ → ℕ → Leases → Leases × Refresh
refresh port owner ttl now t = refresh_lease port owner (now + ttl) (lease_at port t) t

abbrev pub stop_replaced : Option Lease → List ℕ → List ℕ
stop_replaced none stopped = stopped
stop_replaced (some lease) stopped = lease.stop ∷ stopped

unfoldable pub insert : ℕ → SocketAddr → ℕ → ℕ → ℕ → ℕ → Leases → Leases
insert port owner ttl stop listeners now t = record {
  inner =
      record { key = port; owner = owner; deadline = now + ttl; listeners = listeners; stop = stop }
      ∷ retain (λ l. not (is_at port l)) t.inner;
  stopped = stop_replaced (lease_at port t) t.stopped;
}

abbrev pub less_one : Lease → Lease
less_one lease = record lease { listeners = lease.listeners - 1 }

-- A listener of the lease has gone; the last one takes the lease with it.
unfoldable pub release_listener : ℕ → Lease → Leases → Leases × Bool
release_listener port lease t =
    if lease.listeners - 1 == 0
    then (
      record { inner = retain (λ l. not (is_at port l)) t.inner; stopped = lease.stop ∷ t.stopped },
      true,
    )
    else (record t { inner = update_first (is_at port) less_one t.inner }, false)

unfoldable pub release_lease : ℕ → ℕ → Option Lease → Leases → Leases × Bool
release_lease port stop none t = (t, false)
release_lease port stop (some lease) t =
    if lease.stop == stop then release_listener port lease t else (t, false)

unfoldable pub release : ℕ → ℕ → Leases → Leases × Bool
release port stop t = release_lease port stop (lease_at port t) t

abbrev pub expired_stops : ℕ → List Lease → List ℕ → List ℕ
expired_stops now [] stopped = stopped
expired_stops now (lease ∷ leases) stopped =
    let rest = expired_stops now leases stopped in
    if leb lease.deadline now then lease.stop ∷ rest else rest

unfoldable pub expire : ℕ → Leases → Leases
expire now t = record t { stopped = expired_stops now t.inner t.stopped }

-- Whether `wait_until_released` returns.
abbrev pub is_released : ℕ → Leases → Bool
is_released port t = not (any (is_at port) t.inner)

-- What `serve_on` does before it binds: an answer, or the port is to be bound, after a wait for its
-- release or at once.
pub data Serving : Type 0 where
  served : ℕ → Serving
  no_peer : Serving
  owned_by : SocketAddr → Serving
  wait_then_bind : Serving
  bind : Serving

abbrev pub serving : ℕ → Refresh → Serving
serving port live = served port
serving port (owned owner) = owned_by owner
serving port releasing = wait_then_bind
serving port absent = bind

unfoldable pub serve_peer : Option ℕ → ℕ → ℕ → ℕ → ℕ → Leases → Leases × Serving
serve_peer none bridge_port port ttl now t = (t, no_peer)
serve_peer (some peer) bridge_port port ttl now t =
    let owner : SocketAddr = record { ip = peer; port = bridge_port } in
    let (t', answer) = refresh port owner ttl now t in
    if port == 0 then (t, bind) else (t', serving port answer)
