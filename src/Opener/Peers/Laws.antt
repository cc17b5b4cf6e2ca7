-- ===== src/Opener/Peers/Laws.antt =====
-- The paths of crates/forward/src/config/peers.rs that keep no list, against the list of the addresses
-- that the configuration names.
use forward.Prelude.{
  ℕ, ◌≡◌, ◌≢◌, ◌↔◌, All, refl, sym, ap, ◌∙◌, ◌⊎◌, Bool, true, false, ◌||◌, Option, none, some, List,
  [], ◌∷◌, arith, ◌==◌, Text, any-append, Bool-cases, inl, inr,
}
use mathlib.Core.Path.{subst}
use mathlib.Core.List.{Memᴰ}
use forward.Opener.Peers.{
  ConfigError, multiple_peers, Checked, ok, err, Addresses, PeerConfig, values_of, single_value,
  usable, peer_values, peer_ip, admitted, admits_values, admits_peer, contains_ip, push_ip,
  collect_ips, ips_of, peer_ips,
}

pub Checked-cases {ℓ} :
    {A : Type ℓ} (r : Checked A) → ((e : ConfigError) × (r ≡ err e)) ⊎ ((a : A) × (r ≡ ok a))
Checked-cases (err e) = inl (e, refl)
Checked-cases (ok a) = inr (a, refl)

-- Whether an address is among those that were collected.
abbrev pub holds_ip : ℕ → Checked (List ℕ) → Bool
holds_ip remote (err e) = false
holds_ip remote (ok ips) = contains_ip remote ips

-- The one address among those that were collected, if there is but one.
abbrev pub sole_ip : Checked (List ℕ) → Checked (Option ℕ)
sole_ip (err e) = err e
sole_ip (ok []) = ok none
sole_ip (ok (ip ∷ [])) = ok (some ip)
sole_ip (ok (ip ∷ other ∷ ips)) = err multiple_peers

ok-injective {ℓ} : {A : Type ℓ} (a b : A) → ok a ≡ ok b → a ≡ b
ok-injective a b h = cc h

contains_again :
    (q ip : ℕ) (ips : List ℕ)
    → contains_ip ip ips ≡ true
    → (contains_ip q ips || ip == q) ≡ contains_ip q ips
contains_again q ip [] h = absurd (cc h)
contains_again q ip (p ∷ ips) h = ground (arith, contains_again q ip ips)

contains-push :
    (q ip : ℕ) (ips : List ℕ) → contains_ip q (push_ip ip ips) ≡ (contains_ip q ips || ip == q)
contains-push q ip ips = elim (Bool-cases (contains_ip ip ips)) [
  | inl old ↦ rw old (sym (contains_again q ip ips old))
  | inr fresh ↦ rw fresh (any-append (λ p. p == q) ips (ip ∷ []) ∙ ground arith)
]

admitted-collect :
    (lib : Addresses) (remote : ℕ) (values : List Text) (ips : List ℕ)
    → admitted lib remote values (contains_ip remote ips)
      ≡ holds_ip remote (collect_ips lib values ips)
unfolding admitted collect_ips
admitted-collect lib remote [] ips = refl
admitted-collect lib remote (value ∷ values) ips = elim (Checked-cases (peer_ip lib value)) [
  | inl (e, bad) ↦ rw (admitted, collect_ips, bad) refl
  | inr (ip, good) ↦
      rw (admitted, collect_ips, good)
        (ap (admitted lib remote values) (sym (contains-push remote ip ips))
          ∙ admitted-collect lib remote values (push_ip ip ips))
]

-- The values that the configuration names its peers by: it has one key for a single peer and one for a
-- list, which is not empty, and not both.
pub data PeerValues (cfg : PeerConfig) : List Text → Type 0 where
  no_peer : cfg.peers ≡ none → cfg.peer ≡ [] → PeerValues cfg []
  one_peer : cfg.peers ≡ none → cfg.peer ≢ [] → PeerValues cfg (cfg.peer ∷ [])
  peer_list :
      {value : Text} {values : List Text}
      → cfg.peer ≡ []
      → cfg.peers ≡ some (value ∷ values)
      → PeerValues cfg (value ∷ values)

-- A value that is the text of an address, and of one that a peer can have.
abbrev pub IsPeerAt : Addresses → ℕ → Text → Type 0
IsPeerAt lib ip value =
    (lib.parse value ≡ some ip)
    × (lib.is_unspecified ip ≡ false)
    × (lib.is_multicast ip ≡ false)
    × ((ip == lib.broadcast) ≡ false)

-- Whom the configuration admits: an address of one of its values, each of which is a peer's address.
abbrev pub Admits : Addresses → PeerConfig → ℕ → Type 0
Admits lib cfg remote =
    (values : List Text) × PeerValues cfg values
    × All (λ value. (ip : ℕ) × IsPeerAt lib ip value) values
    × (value : Text) × Memᴰ value values
    × IsPeerAt lib remote value

values-PeerValues :
    (cfg : PeerConfig) (peer : Text) (peers : Option (List Text)) (values : List Text)
    → cfg.peer ≡ peer
    → cfg.peers ≡ peers
    → values_of peer peers ≡ ok values
    → PeerValues cfg values
unfolding values_of single_value
values-PeerValues cfg [] none values e f h =
    subst (PeerValues cfg) (ok-injective [] values h) (no_peer f e)
values-PeerValues cfg (c ∷ s) none values e f h =
    subst (PeerValues cfg) (ap (λ t. t ∷ []) e ∙ ok-injective ((c ∷ s) ∷ []) values h)
      (one_peer f (λ empty. cc (e, empty)))
values-PeerValues cfg (c ∷ s) (some ps) values e f h = absurd (cc h)
values-PeerValues cfg [] (some []) values e f h = absurd (cc h)
values-PeerValues cfg [] (some (p ∷ ps)) values e f h =
    subst (PeerValues cfg) (ok-injective (p ∷ ps) values h) (peer_list e f)

one_value : (peer : Text) → peer ≢ [] → values_of peer none ≡ ok (peer ∷ [])
unfolding values_of single_value
one_value [] h = absurd (h refl)
one_value (c ∷ s) h = refl

PeerValues-values :
    (cfg : PeerConfig) (values : List Text) → PeerValues cfg values → peer_values cfg ≡ ok values
unfolding peer_values values_of single_value
PeerValues-values cfg [] (no_peer f e) = rw (f, e) refl
PeerValues-values cfg (value ∷ []) (one_peer f e) = rw f (one_value cfg.peer e)
PeerValues-values cfg (value ∷ values) (peer_list e f) = rw (f, e) refl

usable-IsPeerAt :
    (lib : Addresses) (value : Text) (ip : ℕ) → (peer_ip lib value ≡ ok ip) ↔ IsPeerAt lib ip value
unfolding peer_ip usable
usable-IsPeerAt lib value ip = (λ h. sound (lib.parse value) refl h, complete)
  where
    sound :
        (o : Option ℕ) → lib.parse value ≡ o → usable lib value o ≡ ok ip → IsPeerAt lib ip value
    sound none e h = absurd (cc h)
    sound (some p) e h =
        elim (Bool-cases (lib.is_unspecified p || lib.is_multicast p || p == lib.broadcast)) [
          | inl bad ↦ absurd (ground arith)
          | inr good ↦
              let same : p ≡ ip = ok-injective p ip (sym (rw good refl) ∙ h) in
              (e ∙ ap some same, ground arith, ground arith, ground arith)
        ]

    complete : IsPeerAt lib ip value → peer_ip lib value ≡ ok ip
    complete (parsed, specified, single, other) = rw (parsed, specified, single, other) refl

module _ (lib : Addresses) (remote : ℕ) where
  admitted_step :
      (value : Text) (values : List Text) (found : Bool) (ip : ℕ)
      → peer_ip lib value ≡ ok ip
      → admitted lib remote (value ∷ values) found
        ≡ admitted lib remote values (found || ip == remote)
  unfolding admitted
  admitted_step value values found ip good = rw (admitted, good) refl

  -- What the loop has found, or what is among the values.
  abbrev Finds : Bool → List Text → Type 0
  Finds found values =
      (found ≡ true) ⊎ ((value : Text) × Memᴰ value values × IsPeerAt lib remote value)

  step_back :
      (value : Text) (values : List Text) (found : Bool) (ip : ℕ)
      → IsPeerAt lib ip value
      → Finds (found || ip == remote) values
      → Finds found (value ∷ values)
  step_back value values true ip at who = inl refl
  step_back value values false ip at (inl is) =
      let same : ip ≡ remote = ground arith in
      inr (value, Memᴰ.head refl, subst (λ r. IsPeerAt lib r value) same at)
  step_back value values false ip at (inr (v, m, there)) = inr (v, Memᴰ.tail m, there)

  step_on :
      (value v : Text) (values : List Text) (found : Bool) (ip : ℕ)
      → IsPeerAt lib ip value
      → Memᴰ v (value ∷ values)
      → IsPeerAt lib remote v
      → Finds (found || ip == remote) values
  step_on value v values found ip at (Memᴰ.head e) there =
      let same : ip ≡ remote = cc (at.0, there.0, e) in inl (ground arith)
  step_on value v values found ip at (Memᴰ.tail m) there = inr (v, m, there)

  admitted_sound :
      (values : List Text) (found : Bool)
      → admitted lib remote values found ≡ true
      → All (λ value. (ip : ℕ) × IsPeerAt lib ip value) values × Finds found values
  unfolding admitted
  admitted_sound [] found h = (tt, inl h)
  admitted_sound (value ∷ values) found h = elim (Checked-cases (peer_ip lib value)) [
    | inl (e, bad) ↦ absurd (cc (h, bad))
    | inr (ip, good) ↦
        let at = (usable-IsPeerAt lib value ip).0 good in
        let (usable, who) =
          admitted_sound values (found || ip == remote)
            (sym (admitted_step value values found ip good) ∙ h) in
        (((ip, at), usable), step_back value values found ip at who)
  ]

  admitted_complete :
      (values : List Text) (found : Bool)
      → All (λ value. (ip : ℕ) × IsPeerAt lib ip value) values
      → Finds found values
      → admitted lib remote values found ≡ true
  unfolding admitted
  admitted_complete [] found usable (inl h) = h
  admitted_complete [] found usable (inr (value, m, at)) = elim m [ ]
  admitted_complete (value ∷ values) found ((ip, at), usable) who =
      admitted_step value values found ip ((usable-IsPeerAt lib value ip).1 at)
      ∙ admitted_complete values (found || ip == remote) usable (elim who [
        | inl is ↦ inl (ground arith)
        | inr (v, m, there) ↦ step_on value v values found ip at m there
      ])

  answers_soundly : (cfg : PeerConfig) → admits_peer lib cfg remote ≡ true → Admits lib cfg remote
  unfolding admits_peer admits_values peer_values
  answers_soundly cfg h = elim (Checked-cases (peer_values cfg)) [
    | inl (e, bad) ↦ absurd (cc (h, bad))
    | inr (values, good) ↦
        let (usable, who) = admitted_sound values false (sym (rw good refl) ∙ h) in
        let named = values-PeerValues cfg cfg.peer cfg.peers values refl refl good in
        elim who [
          | inl is ↦ absurd (cc is)
          | inr (value, m, at) ↦ (values, named, usable, value, m, at)
        ]
  ]

  answers_completely :
      (cfg : PeerConfig) → Admits lib cfg remote → admits_peer lib cfg remote ≡ true
  unfolding admits_peer admits_values
  answers_completely cfg (values, named, usable, value, m, at) =
      rw (PeerValues-values cfg values named)
        (admitted_complete values false usable (inr (value, m, at)))

admits_peer-collect :
    (lib : Addresses) (cfg : PeerConfig) (remote : ℕ)
    → admits_peer lib cfg remote ≡ holds_ip remote (peer_ips lib cfg)
unfolding admits_peer admits_values peer_ips ips_of
admits_peer-collect lib cfg remote = elim (Checked-cases (peer_values cfg)) [
  | inl (e, bad) ↦ rw bad refl
  | inr (values, good) ↦ rw good (admitted-collect lib remote values [])
]

-- The inbound path, which keeps no list, admits an address exactly when `peer_ips` has a list and it
-- holds that address; and exactly when the configuration names its peers in one way, each by the text
-- of an address that is neither unspecified, multicast nor broadcast, and the address is one of them.
-- A value that is no such text, or a configuration that names its peers twice or by an empty list,
-- admits nobody.
pub admits_peer-peer_ips :
    (lib : Addresses) (cfg : PeerConfig) (remote : ℕ)
    → (admits_peer lib cfg remote ≡ holds_ip remote (peer_ips lib cfg))
      × ((admits_peer lib cfg remote ≡ true) ↔ Admits lib cfg remote)
admits_peer-peer_ips lib cfg remote = (
  admits_peer-collect lib cfg remote,
  (answers_soundly lib remote cfg, answers_completely lib remote cfg),
)
