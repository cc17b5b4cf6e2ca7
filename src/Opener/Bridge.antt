-- ===== src/Opener/Bridge.antt =====
-- crates/forward/src/bridge/armed.rs: the ports that the bridge may reach. A holder is a number;
-- whether it is alive, takes the acknowledgement, or dials is what its connection answers, an
-- argument here. Each function is what happens while no other thread changes the maps, so the loops
-- of `arm` and `hold` come to their second round at most.
pub mod Safe
pub mod Reaches
pub mod Limit
use forward.Prelude.{
  ℕ, Bool, true, false, not, ◌&&◌, ◌||◌, Option, none, some, List, [], ◌∷◌, ltb, ◌==◌,
  if◌then◌else◌, find, any, retain, update_first, checked_add,
}
use forward.Opener.Ports.{ServiceConfig, can_arm}

-- A key of a map, with the deadline of its lease or with its holder.
pub record Entry : Type 0 where
  pub port : ℕ
  pub value : ℕ

pub record Armed : Type 0 where
  pub cfg : ServiceConfig
  pub ports : List Entry
  pub holders : List Entry

-- `Armed::new`
abbrev pub new : ServiceConfig → Armed
new cfg = record { cfg = cfg; ports = []; holders = [] }

abbrev pub is_at : ℕ → Entry → Bool
is_at port e = e.port == port

abbrev pub contains_key : ℕ → List Entry → Bool
contains_key port = any (is_at port)

abbrev pub remove : ℕ → List Entry → List Entry
remove port = retain (λ e. not (is_at port e))

abbrev pub later : ℕ → Entry → Entry
later deadline e = if ltb e.value deadline then record e { value = deadline } else e

-- The entry of a port, put in with the deadline or moved to it where it is later.
abbrev pub arm_entry : ℕ → ℕ → List Entry → List Entry
arm_entry port deadline ports =
    if contains_key port ports
    then update_first (is_at port) (later deadline) ports
    else record { port = port; value = deadline } ∷ ports

-- `Armed::release`
abbrev pub release_if : ℕ → Option Entry → ℕ → List Entry → List Entry
release_if port none holder holders = holders
release_if port (some e) holder holders = if e.value == holder then remove port holders else holders

unfoldable pub release : ℕ → ℕ → Armed → Armed
release port holder a = record a {
  holders = release_if port (find (is_at port) a.holders) holder a.holders;
}

unfoldable pub arm_free : ℕ → ℕ → Armed → Armed × Bool
arm_free port deadline a = (record a { ports = arm_entry port deadline a.ports }, true)

unfoldable pub arm_at : (ℕ → Bool) → ℕ → ℕ → Option Entry → Armed → Armed × Bool
arm_at is_alive port deadline none a = arm_free port deadline a
arm_at is_alive port deadline (some e) a =
    if is_alive e.value then (a, true) else arm_free port deadline (release port e.value a)

unfoldable pub arm_until : (ℕ → Bool) → ℕ → Option ℕ → Armed → Armed × Bool
arm_until is_alive port none a = (a, false)
arm_until is_alive port (some deadline) a =
    arm_at is_alive port deadline (find (is_at port) a.holders) a

unfoldable pub arm : (ℕ → Bool) → ℕ → ℕ → ℕ → Armed → Armed × Bool
arm is_alive port ttl now a =
    let armed = arm_until is_alive port (checked_add now ttl) a in
    if can_arm a.cfg port then armed else (a, false)

unfoldable pub is_armed : ℕ → ℕ → Armed → Armed × Bool
is_armed port now a =
    let ports = retain (λ e. ltb now e.value) a.ports in
    (record a { ports = ports }, contains_key port ports)

pub data HoldResult : Type 0 where
  held unsafe busy vanished : HoldResult

unfoldable pub hold_free : Bool → ℕ → ℕ → Armed → Armed × HoldResult
hold_free acknowledged port holder a =
    if acknowledged
    then (
      record a {
        ports = remove port a.ports;
        holders = record { port = port; value = holder } ∷ a.holders;
      },
      held,
    )
    else (a, vanished)

unfoldable pub hold_at : (ℕ → Bool) → Bool → ℕ → ℕ → Option Entry → Armed → Armed × HoldResult
hold_at is_alive acknowledged port holder none a = hold_free acknowledged port holder a
hold_at is_alive acknowledged port holder (some e) a =
    if is_alive e.value
    then (a, busy)
    else hold_free acknowledged port holder (release port e.value a)

unfoldable pub hold : (ℕ → Bool) → Bool → ℕ → ℕ → Armed → Armed × HoldResult
hold is_alive acknowledged port holder a =
    let taken = hold_at is_alive acknowledged port holder (find (is_at port) a.holders) a in
    if can_arm a.cfg port then taken else (a, unsafe)

-- What `Holder::dial` answers.
pub data Dial : Type 0 where
  dial_connected dial_unreachable dial_gone : Dial

-- Where a connection goes: to what the holder dialled, to this host's loopback, or nowhere.
pub data Upstream : Type 0 where
  through_holder : ℕ → Upstream
  to_loopback : Upstream
  unarmed failed : Upstream

unfoldable pub dialled : Dial → ℕ → ℕ → Armed → Armed × Upstream
dialled dial_connected port holder a = (a, through_holder holder)
dialled dial_unreachable port holder a = (a, failed)
dialled dial_gone port holder a = (release port holder a, failed)

unfoldable pub connect_at : (ℕ → Dial) → Bool → ℕ → ℕ → Option Entry → Armed → Armed × Upstream
connect_at dial accepts port now (some e) a = dialled (dial e.value) port e.value a
connect_at dial accepts port now none a =
    let (a', armed) = is_armed port now a in
    if armed then (a', if accepts then to_loopback else failed) else (a', unarmed)

-- `accepts`: whether something listens on this host's loopback there.
unfoldable pub connect : (ℕ → Dial) → Bool → ℕ → ℕ → Armed → Armed × Upstream
connect dial accepts port now a = connect_at dial accepts port now (find (is_at port) a.holders) a
