-- ===== src/Opener/Peers/Single.antt =====
-- The single destination of crates/forward/src/config/peers.rs, against the list of the addresses that
-- the configuration names.
use forward.Prelude.{
  ℕ, ◌≡◌, refl, sym, Bool, true, false, ◌||◌, Option, none, some, List, [], ◌∷◌, arith, ◌==◌, Text,
  Bool-cases, inl, inr,
}
use mathlib.Core.Path.{subst}
use forward.Opener.Peers.{
  ok, Addresses, PeerConfig, peer_values, peer_ip, contains_ip, push_ip, collect_ips, ips_of,
  peer_ips, differs, last_ip, single_of, single_peer_ip,
}
use forward.Opener.Peers.Laws.{Checked-cases, sole_ip}

-- What the loop of `single_peer_ip` knows of the addresses collected so far.
data Tracks : Option ℕ → Bool → List ℕ → Type 0 where
  no_ip : Tracks none false []
  one_ip : {ip : ℕ} → Tracks (some ip) false (ip ∷ [])
  more_ips : {ip p q : ℕ} {ips : List ℕ} → Tracks (some ip) true (p ∷ q ∷ ips)

next_step :
    (ip : ℕ) {peer : Option ℕ} {multiple : Bool} {ips : List ℕ}
    → Tracks peer multiple ips
    → Tracks (some ip) (multiple || differs peer ip) (push_ip ip ips)
next_step ip no_ip = one_ip
next_step ip (one_ip {ip = p}) = elim (Bool-cases (p == ip)) [
  | inl same ↦
      let is : p ≡ ip = ground arith in
      rw same (subst (λ q. Tracks (some ip) false (q ∷ [])) (sym is) one_ip)
  | inr other ↦ rw other more_ips
]
next_step ip (more_ips {p = a} {q = b} {ips = ips}) =
    elim (Bool-cases (contains_ip ip (a ∷ b ∷ ips))) [
      | inl old ↦ rw old more_ips
      | inr fresh ↦ rw fresh more_ips
    ]

ended :
    (lib : Addresses) {peer : Option ℕ} {multiple : Bool} {ips : List ℕ}
    → Tracks peer multiple ips
    → last_ip lib [] peer multiple ≡ sole_ip (ok ips)
unfolding last_ip
ended lib no_ip = refl
ended lib one_ip = refl
ended lib more_ips = refl

last_ip-collect :
    (lib : Addresses) (values : List Text) (peer : Option ℕ) (multiple : Bool) (ips : List ℕ)
    → Tracks peer multiple ips
    → last_ip lib values peer multiple ≡ sole_ip (collect_ips lib values ips)
unfolding last_ip collect_ips
last_ip-collect lib [] peer multiple ips t = ended lib t
last_ip-collect lib (value ∷ values) peer multiple ips t =
    elim (Checked-cases (peer_ip lib value)) [
      | inl (e, bad) ↦ rw (last_ip, collect_ips, bad) refl
      | inr (ip, good) ↦
          rw (last_ip, collect_ips, good)
            (last_ip-collect lib values (some ip) (multiple || differs peer ip) (push_ip ip ips)
              (next_step ip t))
    ]

-- A single-destination operation gets the one address of `peer_ips`, none where the list is empty,
-- MULTIPLE_PEERS where it has two or more, and the configuration's error where there is no list.
pub single_peer_ip-peer_ips :
    (lib : Addresses) (cfg : PeerConfig) → single_peer_ip lib cfg ≡ sole_ip (peer_ips lib cfg)
unfolding single_peer_ip single_of peer_ips ips_of
single_peer_ip-peer_ips lib cfg = elim (Checked-cases (peer_values cfg)) [
  | inl (e, bad) ↦ rw bad refl
  | inr (values, good) ↦ rw good (last_ip-collect lib values none false [] no_ip)
]
