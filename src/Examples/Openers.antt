-- ===== src/Examples/Openers.antt =====
-- The theorems on the link opener and the broker's replies at concrete inputs.
use forward.Prelude.{
  ltb, ℕ, suc, ◌+◌, ◌≤◌, ◌<◌, ◌≡◌, ◌↔◌, refl, Bool, true, false, Option, none, some, List, [], ◌∷◌,
  ◌++◌, ◌==◌, arith, Text, codes, text_eq, All, any, length, if◌then◌else◌, u64_max, all_bytes,
  is_digit, Bool-cases, ◌⊎◌, inl, inr,
}
use mathlib.Core.List.{Memᴰ}
use forward.Protocol.Numbers.{parse_unsigned}
use forward.Protocol.Response.{ok_bytes, format_response}
use forward.Protocol.Reply.{parse_response}
use forward.Protocol.Reply.Laws.{IsReadable, meant, parse_response-format_response}
use forward.Protocol.Events.{
  authority_event, parse_authority_event, parse_authority_event-authority_event,
}
use forward.Opener.Url.{Url}
use forward.Opener.Policy.{allow_matches}
use forward.Opener.Matches.{Allows, allow_matches_iff}
use forward.Opener.Callback as Callback
use forward.Opener.Callback.{SocketAddr, Lease, Leases, lease_at, is_stopped, addr_eq, live, owned}
use forward.Opener.Callback.Kept.{release_times, refresh-live, release_times-last}
use forward.Opener.Ports.{ServiceConfig, contains, service_ports, lethal_development_ports}
use forward.Opener.Bridge as Bridge
use forward.Opener.Bridge.{Armed, Dial, dial_connected}
use forward.Opener.Bridge.Safe as Safe
use forward.Opener.Bridge.Reaches.{by_lease, connections_are_allowed}
use forward.Opener.Peers.{Addresses, PeerConfig, admits_peer, peer_ips}
use forward.Opener.Peers.Laws.{holds_ip, Admits, admits_peer-peer_ips}
use forward.Opener.Browser as Browser
use forward.Opener.Browser.{
  BrokerIdentity, Grant, Grants, GrantEntry, PipeRow, is_changed, observe_authority, register_pipe,
  insert_if_authority, empty,
}
use forward.Opener.Browser.Severed as Severed
use forward.Opener.Browser.Severed.{IsServed, pipes-IsServed, observe_authority-changed}
use forward.Opener.Lines.{
  byte, interrupted, sent_at, relay_prefix, max_request_line, read_relay_token,
  read_relay_token-interrupted,
}

abbrev digits : ℕ → Text
digits n = if n == 5 then codes "5" else codes "0"

digits_are_digits : (n : ℕ) → all_bytes is_digit (digits n) ≡ true
digits_are_digits n = elim (Bool-cases (n == 5)) [ inl e ↦ rw e refl | inr e ↦ rw e refl ]

parse_response-format_response_example :
    parse_response (format_response digits (ok_bytes 5) ++ codes "value")
    ≡ meant (ok_bytes 5) (codes "value")
unfolding IsReadable parse_unsigned forward.Protocol.Numbers.parse_digits
parse_response-format_response_example =
    let size : length (codes "value") ≡ 5 = refl in
    parse_response-format_response digits (ok_bytes 5) (codes "value") digits_are_digits
      (size, omega arith, refl, refl)

parse_authority_event-authority_event_example :
    parse_authority_event (authority_event digits (codes "i1") 5) ≡ some (codes "i1", 5)
unfolding parse_unsigned forward.Protocol.Numbers.parse_digits
parse_authority_event-authority_event_example =
    parse_authority_event-authority_event digits (codes "i1") 5 refl refl refl

abbrev url : Url
url = record {
  host_str = some (codes "app.example.com");
  port = none;
  port_or_known_default = some 443;
  path = codes "/login";
  query_pairs = [];
}

allow_matches_iff_example :
    (allow_matches (codes "*.example.com/login") url ≡ true)
    ↔ Allows (codes "*.example.com/login") url
allow_matches_iff_example = allow_matches_iff (codes "*.example.com/login") url

abbrev owner : SocketAddr
owner = record { ip = 7; port = 1 }

abbrev lease : Lease
lease = record { key = 4000; owner = owner; deadline = 9; listeners = 2; stop = 3 }

abbrev leases : Leases
leases = record { inner = lease ∷ []; stopped = [] }

refresh-live_example :
    ((addr_eq lease.owner owner ≡ false)
      × (Callback.refresh 4000 owner 5 6 leases ≡ (leases, owned lease.owner)))
    ⊎ ((addr_eq lease.owner owner ≡ true)
        × ((Callback.refresh 4000 owner 5 6 leases).1 ≡ live)
        × (lease' : Lease) × (lease_at 4000 (Callback.refresh 4000 owner 5 6 leases).0
            ≡ some lease')
        × (lease'.owner ≡ lease.owner)
        × (lease'.listeners ≡ lease.listeners)
        × (lease.deadline ≤ lease'.deadline)
        × (6 + 5 ≤ lease'.deadline))
refresh-live_example = refresh-live 4000 owner 5 6 leases lease refl refl

release_times-last_example :
    (lease_at 4000 (release_times 1 4000 lease.stop leases) ≡ some (record lease { listeners = 1 }))
    × ((Callback.release 4000 lease.stop (release_times 1 4000 lease.stop leases)).1 ≡ true)
    × (lease_at 4000 (Callback.release 4000 lease.stop (release_times 1 4000 lease.stop leases)).0
        ≡ none)
    × (is_stopped lease.stop
          (Callback.release 4000 lease.stop (release_times 1 4000 lease.stop leases)).0
        ≡ true)
release_times-last_example = release_times-last 1 4000 leases lease refl refl

abbrev service : ServiceConfig
service = record {
  bridge_port = 12801;
  relay_port = 12803;
  pcsc_port = 12804;
  grant_port = 12805;
  pulse_port = 12806;
}

-- Port 4000, armed for five seconds.
abbrev armed : Armed
armed = (Bridge.arm (λ holder. true) 4000 5 1 (Bridge.new service)).0

connections_are_allowed_example :
    (1024 ≤ 4000)
    × (contains 4000 (service_ports service) ≡ false)
    × (contains 4000 lethal_development_ports ≡ false)
unfolding Bridge.arm Bridge.connect Bridge.connect_at forward.Opener.Ports.can_arm
    forward.Opener.Ports.globally_denied service_ports Bridge.arm_until Bridge.arm_at
    Bridge.arm_free Bridge.is_armed
connections_are_allowed_example =
    connections_are_allowed service (λ holder. dial_connected) true 4000 2 armed
      (Safe.arms (λ holder. true) 4000 5 1 Safe.start) by_lease

abbrev addresses : Addresses
addresses = record {
  parse = λ t. if text_eq t (codes "10.0.0.7") then some 7 else none;
  is_unspecified = λ ip. ip == 0;
  is_multicast = λ ip. false;
  is_loopback = λ ip. ip == 1;
  broadcast = 255;
}

abbrev peers : PeerConfig
peers = record { listen = []; peer = codes "10.0.0.7"; peers = none }

admits_peer-peer_ips_example :
    (admits_peer addresses peers 7 ≡ holds_ip 7 (peer_ips addresses peers))
    × ((admits_peer addresses peers 7 ≡ true) ↔ Admits addresses peers 7)
admits_peer-peer_ips_example = admits_peer-peer_ips addresses peers 7

abbrev broker_at : ℕ → BrokerIdentity
broker_at epoch = record {
  instance_id = codes "i1";
  epoch = epoch;
  socket = record { device = 1; inode = 2 };
}

abbrev grant : Grant
grant = record {
  session_id = codes "s1";
  anchor = record { pid = 10; start = 1 };
  token = codes "t1";
  deadline = 9;
  endpoint_port = 9222;
}

-- A grant with a pipe.
abbrev serving : Grants
serving =
    (register_pipe true 0
      (insert_if_authority true (broker_at 1) grant 4
        (observe_authority (broker_at 1) empty).0).0).0

pipes-IsServed_example : IsServed serving
pipes-IsServed_example = pipes-IsServed serving (
    Severed.pipes true 0
      (Severed.inserts true (broker_at 1) grant 4 (Severed.observes (broker_at 1) Severed.start)))

observe_authority-changed_example :
    ((observe_authority (broker_at 2) serving).0.grants ≡ [])
    × ((observe_authority (broker_at 2) serving).0.pipes ≡ [])
    × ((row : PipeRow) (pipe : ℕ)
        → Memᴰ row serving.pipes
        → Memᴰ pipe row.handles
        → Memᴰ pipe (observe_authority (broker_at 2) serving).0.severed)
    × ((e : GrantEntry)
        → Memᴰ e serving.grants
        → Memᴰ e.control (observe_authority (broker_at 2) serving).0.ended)
    × ((observe_authority (broker_at 2) serving).0.authority ≡ some (broker_at 2))
unfolding observe_authority register_pipe insert_if_authority forward.Prelude.Text-discrete
    Browser.insert
observe_authority-changed_example = observe_authority-changed (broker_at 2) serving refl

read_relay_token-interrupted_example :
    read_relay_token 9 (
      byte 1 82
      ∷ byte 1 69
      ∷ byte 1 76
      ∷ byte 1 65
      ∷ byte 1 89
      ∷ interrupted 1
      ∷ sent_at 1 (32 ∷ (codes "t1" ++ 10 ∷ [])))
    ≡ (if ltb (length (relay_prefix ++ (codes "t1" ++ 10 ∷ []))) max_request_line
        then some (32 ∷ codes "t1")
        else none)
read_relay_token-interrupted_example =
    read_relay_token-interrupted 9 1 (codes "t1") [] (omega arith) refl
