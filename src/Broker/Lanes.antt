-- ===== src/Broker/Lanes.antt =====
-- What crates/secrets/src/server/dispatch.rs answers at once, by the lane that
-- crates/secrets/src/server.rs gives the request, and which keys an approval may be for.
use forward.Prelude.{
  ℕ, ◌≡◌, ◌≢◌, refl, sym, ap, Bool, true, false, Option, none, Text, Bool-cases, inl, inr,
  strip_prefix-append, is_some, map,
}
use mathlib.Core.Path.{subst}
use forward.ErrCode.{Result, ok, err}
use forward.Containment.{PinnedPeer}
use forward.Names.{is_capability, parse_capability, key_name, capability_prefix, to_upper}
use forward.Names.Laws.{parse_capability-ok}
use forward.Protocol.Request as Request
use forward.Protocol.Request.{Request, request_lane}
use forward.Broker.State.{State, Decision}
use forward.Broker.Approval.{Access}
use forward.Broker.Capability.{begin_authorization}
use forward.Broker.Dispatch.{
  Dispatched, answered, approving, authorizing, is_capability_key, dispatch_key, authorize_begun,
  dispatch, access_of,
}

-- A request that the main lane does not carry is answered at once, with no approval to wait for: the
-- workers of the other lanes never wait for a human.
pub other_lanes_never_wait :
    (request : Request) (caller : PinnedPeer) (now : ℕ) (s : State)
    → request_lane request ≢ Request.main
    → (decision : Decision) × ((dispatch request caller now s).1 ≡ answered decision)
unfolding dispatch request_lane
other_lanes_never_wait (Request.hello version) caller now s h = (_, refl)
other_lanes_never_wait (Request.register token id wire_pid) caller now s h = (_, refl)
other_lanes_never_wait (Request.unregister id) caller now s h = (_, refl)
other_lanes_never_wait (Request.get key token path ttl) caller now s h = absurd (h refl)
other_lanes_never_wait (Request.request_grant key token path ttl) caller now s h = absurd (h refl)
other_lanes_never_wait (Request.authorize cap token path) caller now s h = absurd (h refl)
other_lanes_never_wait (Request.redeem receipt cap) caller now s h = (_, refl)
other_lanes_never_wait Request.grants caller now s h = (_, refl)
other_lanes_never_wait (Request.deny id) caller now s h = (_, refl)
other_lanes_never_wait Request.lock caller now s h = (_, refl)
other_lanes_never_wait Request.subscribe caller now s h = (_, refl)

-- Plain keys and the keys of capabilities are kept apart: an approval for GET or REQUEST is never for
-- a key of a capability, and one for AUTHORIZE is for the key of a valid capability, without a
-- lifetime of its own, in the epoch of the state it saw.
pub IsSeparated : State → Dispatched → Type 0
IsSeparated s (answered decision) = Unit
IsSeparated s (approving access return_value) = is_capability_key access.key ≡ false
IsSeparated s (authorizing cap epoch access) =
    (is_capability cap ≡ true)
    × (access.key ≡ key_name cap)
    × (is_capability_key access.key ≡ true)
    × (access.requested_ttl ≡ none)
    × (epoch ≡ s.lock_epoch)

key_answer-IsSeparated :
    (key : Text) (token path : Option Text) (ttl : Option ℕ) (return_value : Bool) (s : State)
    → IsSeparated s (dispatch_key key token path ttl return_value)
unfolding IsSeparated dispatch_key
key_answer-IsSeparated key token path ttl return_value s =
    elim (Bool-cases (is_capability_key key)) [ inl e ↦ rw e tt | inr e ↦ rw e e ]

abbrev begun : Text → Option Text → Option Text → State → Result Text → Result (Text × Access × ℕ)
begun cap token path s (err e) = err e
begun cap token path s (ok cap') =
    ok (cap', access_of (key_name cap') token path none, s.lock_epoch)

begin_authorization-begun :
    (cap : Text) (token path : Option Text) (s : State)
    → begin_authorization cap token path s ≡ begun cap token path s (parse_capability cap)
unfolding begin_authorization
begin_authorization-begun cap token path s = named (parse_capability cap)
  where
    named :
        (r : Result Text)
        → elim r [
          | err e ↦ err e
          | ok cap' ↦ ok (cap', access_of (key_name cap') token path none, s.lock_epoch)
        ]
          ≡ begun cap token path s r
    named (err e) = refl
    named (ok cap') = refl

authorize_answer-IsSeparated :
    (cap : Text) (token path : Option Text) (s : State) (r : Result Text)
    → parse_capability cap ≡ r
    → IsSeparated s (authorize_begun (begun cap token path s r))
unfolding IsSeparated authorize_begun key_name
authorize_answer-IsSeparated cap token path s (err e) h = tt
authorize_answer-IsSeparated cap token path s (ok cap') h = (
  (parse_capability-ok cap cap' h).0,
  refl,
  ap is_some (strip_prefix-append capability_prefix (map to_upper cap')),
  refl,
  refl,
)

-- What dispatching any request in any state answers keeps plain keys and capability keys apart.
pub dispatch-IsSeparated :
    (request : Request) (caller : PinnedPeer) (now : ℕ) (s : State)
    → IsSeparated s (dispatch request caller now s).1
unfolding dispatch IsSeparated
dispatch-IsSeparated (Request.hello version) caller now s = tt
dispatch-IsSeparated (Request.register token id wire_pid) caller now s = tt
dispatch-IsSeparated (Request.unregister id) caller now s = tt
dispatch-IsSeparated (Request.get key token path ttl) caller now s =
    key_answer-IsSeparated key token path ttl true s
dispatch-IsSeparated (Request.request_grant key token path ttl) caller now s =
    key_answer-IsSeparated key token path ttl false s
dispatch-IsSeparated (Request.authorize cap token path) caller now s =
    subst (λ r. IsSeparated s (authorize_begun r))
      (sym (begin_authorization-begun cap token path s))
      (authorize_answer-IsSeparated cap token path s (parse_capability cap) refl)
dispatch-IsSeparated (Request.redeem receipt cap) caller now s = tt
dispatch-IsSeparated Request.grants caller now s = tt
dispatch-IsSeparated (Request.deny id) caller now s = tt
dispatch-IsSeparated Request.lock caller now s = tt
dispatch-IsSeparated Request.subscribe caller now s = tt
