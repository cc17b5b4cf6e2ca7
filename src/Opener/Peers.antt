-- ===== src/Opener/Peers.antt =====
-- Who may connect: crates/forward/src/config/peers.rs, config.rs (validate) and peer.rs. An address is
-- in its canonical form; `parse` is `parse_ip` with `to_canonical`, and what the standard library
-- says of an address is an argument.
pub mod Laws
pub mod Single
use forward.Prelude.{
  ℕ, Bool, true, false, not, ◌&&◌, ◌||◌, Option, none, some, List, [], ◌∷◌, ◌++◌, ◌==◌,
  if◌then◌else◌, Text, any,
}

pub data ConfigError : Type 0 where
  address : Text → ConfigError
  peer_required peer_conflict empty_peers multiple_peers daemon_only_peers : ConfigError

-- `Result<A, ConfigError>`
pub data Checked {ℓ} (A : Type ℓ) : Type ℓ where
  ok : A → Checked A
  err : ConfigError → Checked A

-- The standard library on addresses, which are numbers here.
pub record Addresses : Type 0 where
  pub parse : Text → Option ℕ
  pub is_unspecified : ℕ → Bool
  pub is_multicast : ℕ → Bool
  pub is_loopback : ℕ → Bool
  pub broadcast : ℕ

pub record PeerConfig : Type 0 where
  pub listen : Text
  pub peer : Text
  pub peers : Option (List Text)

abbrev pub is_multi_peer : PeerConfig → Bool
is_multi_peer cfg = elim cfg.peers [ none ↦ false | some peers ↦ true ]

unfoldable pub single_value : Text → List Text
single_value [] = []
single_value (c ∷ s) = (c ∷ s) ∷ []

unfoldable pub values_of : Text → Option (List Text) → Checked (List Text)
values_of peer none = ok (single_value peer)
values_of (c ∷ s) (some peers) = err peer_conflict
values_of [] (some []) = err empty_peers
values_of [] (some (p ∷ peers)) = ok (p ∷ peers)

-- `Config::peer_values`
unfoldable pub peer_values : PeerConfig → Checked (List Text)
peer_values cfg = values_of cfg.peer cfg.peers

unfoldable pub usable : Addresses → Text → Option ℕ → Checked ℕ
usable lib value none = err (address value)
usable lib value (some ip) =
    if lib.is_unspecified ip || lib.is_multicast ip || ip == lib.broadcast
    then err (address value)
    else ok ip

unfoldable pub peer_ip : Addresses → Text → Checked ℕ
peer_ip lib value = usable lib value (lib.parse value)

-- The loop of `admits_peer`: a value that is no usable address refuses everyone.
unfoldable pub admitted : Addresses → ℕ → List Text → Bool → Bool
admitted lib remote [] found = found
admitted lib remote (value ∷ values) found = elim (peer_ip lib value) [
  | err e ↦ false
  | ok ip ↦ admitted lib remote values (found || ip == remote)
]

unfoldable pub admits_values : Addresses → ℕ → Checked (List Text) → Bool
admits_values lib remote (err e) = false
admits_values lib remote (ok values) = admitted lib remote values false

-- `Config::admits_peer`
unfoldable pub admits_peer : Addresses → PeerConfig → ℕ → Bool
admits_peer lib cfg remote = admits_values lib remote (peer_values cfg)

abbrev pub contains_ip : ℕ → List ℕ → Bool
contains_ip ip = any (λ p. p == ip)

abbrev pub push_ip : ℕ → List ℕ → List ℕ
push_ip ip ips = if contains_ip ip ips then ips else ips ++ ip ∷ []

-- The loop of `peer_ips`, after the addresses found before.
unfoldable pub collect_ips : Addresses → List Text → List ℕ → Checked (List ℕ)
collect_ips lib [] ips = ok ips
collect_ips lib (value ∷ values) ips = elim (peer_ip lib value) [
  | err e ↦ err e
  | ok ip ↦ collect_ips lib values (push_ip ip ips)
]

unfoldable pub ips_of : Addresses → Checked (List Text) → Checked (List ℕ)
ips_of lib (err e) = err e
ips_of lib (ok values) = collect_ips lib values []

-- `Config::peer_ips`
unfoldable pub peer_ips : Addresses → PeerConfig → Checked (List ℕ)
peer_ips lib cfg = ips_of lib (peer_values cfg)

abbrev pub differs : Option ℕ → ℕ → Bool
differs none ip = false
differs (some previous) ip = not (previous == ip)

-- The loop of `single_peer_ip`, with the last address and whether two differed.
unfoldable pub last_ip : Addresses → List Text → Option ℕ → Bool → Checked (Option ℕ)
last_ip lib [] peer multiple = if multiple then err multiple_peers else ok peer
last_ip lib (value ∷ values) peer multiple = elim (peer_ip lib value) [
  | err e ↦ err e
  | ok ip ↦ last_ip lib values (some ip) (multiple || differs peer ip)
]

unfoldable pub single_of : Addresses → Checked (List Text) → Checked (Option ℕ)
single_of lib (err e) = err e
single_of lib (ok values) = last_ip lib values none false

-- `Config::single_peer_ip`
unfoldable pub single_peer_ip : Addresses → PeerConfig → Checked (Option ℕ)
single_peer_ip lib cfg = single_of lib (peer_values cfg)

unfoldable pub listen_ip : Addresses → PeerConfig → Checked ℕ
listen_ip lib cfg = elim (lib.parse cfg.listen) [
  | none ↦ err (address cfg.listen)
  | some ip ↦ ok ip
]

unfoldable pub require_peer : Bool → Checked (List ℕ) → Checked (Unit {0})
require_peer is_loopback (err e) = err e
require_peer is_loopback (ok []) = if is_loopback then ok tt else err peer_required
require_peer is_loopback (ok (ip ∷ ips)) = ok tt

unfoldable pub validate_listen : Addresses → PeerConfig → Checked ℕ → Checked (Unit {0})
validate_listen lib cfg (err e) = err e
validate_listen lib cfg (ok listen) =
    if lib.is_unspecified listen
    then err (address cfg.listen)
    else require_peer (lib.is_loopback listen) (peer_ips lib cfg)

-- `Config::validate`
unfoldable pub validate : Addresses → PeerConfig → Checked (Unit {0})
validate lib cfg = validate_listen lib cfg (listen_ip lib cfg)

unfoldable pub single_only : Bool → Checked (Unit {0}) → Checked (Unit {0})
single_only is_multi (err e) = err e
single_only is_multi (ok valid) = if is_multi then err daemon_only_peers else ok tt

-- `Config::validate_devbox`
unfoldable pub validate_devbox : Addresses → PeerConfig → Checked (Unit {0})
validate_devbox lib cfg = single_only (is_multi_peer cfg) (validate lib cfg)

-- `authorized` of peer.rs; `remote` is canonical.
unfoldable pub authorized : Addresses → PeerConfig → ℕ → Bool
authorized lib cfg remote =
    (not (is_multi_peer cfg) && lib.is_loopback remote) || admits_peer lib cfg remote

abbrev pub is_ok_ip : Checked ℕ → ℕ → Bool
is_ok_ip (err e) ip = false
is_ok_ip (ok own) ip = own == ip

unfoldable pub authorized_sensitive : Addresses → PeerConfig → ℕ → ℕ → Bool
authorized_sensitive lib cfg remote own =
    admits_peer lib cfg remote && is_ok_ip (listen_ip lib cfg) own
