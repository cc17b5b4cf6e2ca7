-- ===== src/Broker/Control.antt =====
-- crates/secrets/src/server/dispatch/control.rs: REGISTER, UNREGISTER, GRANTS, DENY and LOCK. The
-- publication to the subscribers that follows a LOCK is left out.
use forward.Prelude.{ℕ, Option, none, some, List, if◌then◌else◌, Text, saturating_add}
use forward.ErrCode.{Result, ok, err, bad_request}
use forward.Containment.{PinnedPeer}
use forward.Hex.{parse_hex}
use forward.Grants.Scope.{SessionToken, verified_session}
use forward.Grants.Table.{revoke_tokens, revoke_all}
use forward.Grants.Registry as Registry
use forward.Requests.Queue as Queue
use forward.Receipts as Receipts
use forward.CapabilityGrants as CapabilityGrants
use forward.Broker.State.{
  State, ActiveDecrypt, kill_active, kill_group, done, payload, refused, Decision, decide,
}

unfoldable pub registered :
    State → Registry.Registry × Result (List SessionToken) → State × Decision
registered s (registry, ok displaced) = (
  record s { registry = registry; grants = revoke_tokens displaced s.grants },
  record (decide done) { scope_kind = some verified_session },
)
registered s (registry, err e) = (record s { registry = registry }, decide (refused e))

unfoldable pub register_token : Result SessionToken → Text → PinnedPeer → State → State × Decision
register_token (ok token) id root s =
    registered s
      (Registry.register (record { token = token; session_id = id; root = root }) s.registry)
register_token (err e) id root s = (s, decide (refused e))

unfoldable pub register : Text → Text → PinnedPeer → State → State × Decision
register token_hex id root s = register_token (parse_hex token_hex) id root s

unfoldable pub unregister : Text → State → State × Decision
unregister id s =
    let (registry, tokens) = Registry.unregister id s.registry in
    (record s { registry = registry; grants = revoke_tokens tokens s.grants }, decide done)

unfoldable pub grants : State → Decision
grants s = decide (payload s.grants)

unfoldable pub deny : ℕ → ℕ → State → State × Decision
deny id now s =
    let (queue, was_pending) = Queue.deny id now s.queue in
    if was_pending
    then (kill_active id (record s { queue = queue }), decide done)
    else (record s { queue = queue }, decide (refused bad_request))

-- The decrypt that is running is denied, and its process group killed.
unfoldable pub deny_running : Option ActiveDecrypt → ℕ → State → State
deny_running none now s = s
deny_running (some active) now s =
    kill_group (some active) (record s { queue = (Queue.deny active.id now s.queue).0 })

unfoldable pub lock : ℕ → State → State × Decision
lock now s = (
  deny_running s.active_decrypt now (record s {
    grants = revoke_all s.grants;
    receipts = Receipts.clear s.receipts;
    capability_grants = CapabilityGrants.clear s.capability_grants;
    lock_epoch = saturating_add s.lock_epoch 1;
  }),
  decide done,
)
