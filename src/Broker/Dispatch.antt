-- ===== src/Broker/Dispatch.antt =====
-- crates/secrets/src/server/dispatch.rs: how a request reaches its handler. A request that may wait
-- is handed on as an approval: `dispatch_access` (server/approval.rs) then resolves its scope, waits
-- and concludes, and `authorize` finishes what it answers. Errors' messages are left out.
use forward.Prelude.{
  ℕ, Bool, true, false, Option, none, some, ◌==◌, if◌then◌else◌, Text, codes, length, strip_prefix,
  is_some,
}
use forward.ErrCode.{Result, ok, err, bad_request, version_mismatch, not_human_key}
use forward.Containment.{PinnedPeer}
use forward.Names.{capability_prefix}
use forward.Protocol.Codes.{wire}
use forward.Protocol.Request.{Request}
use forward.Broker.State.{
  State, Outcome, done, fields, payload, bytes, receipt_text, refused, hello, Decision, decide,
}
use forward.Broker.Control as Control
use forward.Broker.Approval.{Access}
use forward.Broker.Capability.{begin_authorization, redeem}

abbrev pub protocol_version : ℕ
protocol_version = 4

-- What a thread has after it gave a request to its handler: an answer, or an approval to wait for,
-- with whether the value is asked for; for `authorize`, with the capability and the epoch it saw.
pub data Dispatched : Type 0 where
  answered : Decision → Dispatched
  approving : Access → Bool → Dispatched
  authorizing : Text → ℕ → Access → Dispatched

-- `starts_with(CAPABILITY_KEY_PREFIX)`
abbrev pub is_capability_key : Text → Bool
is_capability_key key = is_some (strip_prefix capability_prefix key)

unfoldable pub dispatch_hello : ℕ → State → Decision
dispatch_hello version s =
    if version == protocol_version
    then decide (fields (hello protocol_version s.instance_id s.lock_epoch))
    else decide (refused version_mismatch)

abbrev pub access_of : Text → Option Text → Option Text → Option ℕ → Access
access_of key token path ttl = record {
  key = key;
  token_hex = token;
  tty = path;
  requested_ttl = ttl;
}

unfoldable pub dispatch_key : Text → Option Text → Option Text → Option ℕ → Bool → Dispatched
dispatch_key key token path ttl return_value =
    if is_capability_key key
    then answered (decide (refused not_human_key))
    else approving (access_of key token path ttl) return_value

unfoldable pub authorize_begun : Result (Text × Access × ℕ) → Dispatched
authorize_begun (err e) = answered (decide (refused e))
authorize_begun (ok (cap, access, epoch)) = authorizing cap epoch access

abbrev pub at_once : State × Decision → State × Dispatched
at_once (s, decision) = (s, answered decision)

unfoldable pub dispatch : Request → PinnedPeer → ℕ → State → State × Dispatched
dispatch (Request.hello version) caller now s = (s, answered (dispatch_hello version s))
dispatch (Request.register token id wire_pid) caller now s =
    at_once (Control.register token id caller s)
dispatch (Request.unregister id) caller now s = at_once (Control.unregister id s)
dispatch (Request.get key token path ttl) caller now s = (s, dispatch_key key token path ttl true)
dispatch (Request.request_grant key token path ttl) caller now s =
    (s, dispatch_key key token path ttl false)
dispatch Request.grants caller now s = (s, answered (Control.grants s))
dispatch (Request.deny id) caller now s = at_once (Control.deny id now s)
dispatch Request.lock caller now s = at_once (Control.lock now s)
dispatch Request.subscribe caller now s = (s, answered (decide (refused bad_request)))
dispatch (Request.authorize cap token path) caller now s =
    (s, authorize_begun (begin_authorization cap token path s))
dispatch (Request.redeem receipt cap) caller now s = at_once (redeem receipt cap now s)

unfoldable pub request_key : Request → Option Text
request_key (Request.get key token path ttl) = some key
request_key (Request.request_grant key token path ttl) = some key
request_key (Request.hello version) = none
request_key (Request.register token id wire_pid) = none
request_key (Request.unregister id) = none
request_key Request.grants = none
request_key (Request.deny id) = none
request_key Request.lock = none
request_key Request.subscribe = none
request_key (Request.authorize cap token path) = none
request_key (Request.redeem receipt cap) = none

-- `Outcome::released_bytes`
unfoldable pub released_bytes : Outcome → Option ℕ
released_bytes (bytes value) = some (length value)
released_bytes done = none
released_bytes (fields values) = none
released_bytes (payload grants) = none
released_bytes (receipt_text receipt) = none
released_bytes (refused code) = none

-- `Outcome::decision`
unfoldable pub decision_text : Outcome → Text
decision_text (refused code) = wire code
decision_text done = codes "ok"
decision_text (fields values) = codes "ok"
decision_text (payload grants) = codes "ok"
decision_text (bytes value) = codes "ok"
decision_text (receipt_text receipt) = codes "ok"
