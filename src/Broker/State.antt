-- ===== src/Broker/State.antt =====
-- `State` of crates/secrets/src/server.rs, and what a handler answers (server/dispatch.rs). The store
-- and the decryptor stand outside: what they answer is an argument of the handlers that ask them. The
-- instance id is drawn once, when the daemon starts.
use forward.Prelude.{ℕ, Option, none, some, List, [], ◌∷◌, ◌==◌, if◌then◌else◌, Text, is_some_and}
use forward.ErrCode.{ErrCode}
use forward.Grants.Scope.{ScopeKind}
use forward.Grants.Table.{GrantTable}
use forward.Grants.Registry.{Registry}
use forward.Requests.Types.{Queue}
use forward.Receipts.{ReceiptTable}
use forward.CapabilityGrants.{CapabilityGrantTable}
use forward.Grants.Registry.{new as new_registry}
use forward.Requests.Queue.{new as new_queue}

-- The configuration that the handlers read.
pub record Config : Type 0 where
  pub max_grant : ℕ
  pub max_requested_grant : ℕ
  pub request_ttl : ℕ
  pub cooldown : ℕ
  pub max_pending_per_scope : ℕ

pub record ActiveDecrypt : Type 0 where
  pub id : ℕ
  pub process_group : ℕ

-- `killed` lists the process groups that a SIGKILL was sent to, the last one first.
pub record State : Type 0 where
  pub instance_id : Text
  pub registry : Registry
  pub grants : GrantTable
  pub receipts : ReceiptTable
  pub capability_grants : CapabilityGrantTable
  pub queue : Queue
  pub config : Config
  pub failures : List (ℕ × ErrCode)
  pub lock_epoch : ℕ
  pub active_decrypt : Option ActiveDecrypt
  pub killed : List ℕ

-- `State::new`; the boot id and the instance id are read by its caller here.
unfoldable pub new : Text → Text → Config → State
new boot_id instance_id config = record {
  instance_id = instance_id;
  registry = new_registry boot_id;
  grants = [];
  receipts = [];
  capability_grants = [];
  queue = new_queue (record {
    cooldown = config.cooldown;
    ttl = config.request_ttl;
    max_pending_per_scope = config.max_pending_per_scope;
  });
  config = config;
  failures = [];
  lock_epoch = 0;
  active_decrypt = none;
  killed = [];
}

unfoldable pub kill_group : Option ActiveDecrypt → State → State
kill_group none s = s
kill_group (some active) s = record s {
  active_decrypt = none;
  killed = active.process_group ∷ s.killed;
}

unfoldable pub kill_active : ℕ → State → State
unfolding kill_group
kill_active id s =
    if is_some_and s.active_decrypt (λ active. active.id == id)
    then kill_group s.active_decrypt s
    else s

-- The values of an `Outcome::Fields` text: the handshake's, a grant's and a redemption's.
pub data Fields : Type 0 where
  hello : ℕ → Text → ℕ → Fields
  granted : Option ℕ → Fields
  redeemed : Text → Text → ℕ → ℕ → Fields

-- `payload` is the table that `render` prints; an error's message is left out.
pub data Outcome : Type 0 where
  done : Outcome
  fields : Fields → Outcome
  payload : GrantTable → Outcome
  bytes : Text → Outcome
  receipt_text : Text → Outcome
  refused : ErrCode → Outcome

pub record Decision : Type 0 where
  pub outcome : Outcome
  pub scope_kind : Option ScopeKind
  pub source : Option Text
  pub request_id : Option ℕ

-- `Decision::new`
abbrev pub decide : Outcome → Decision
decide outcome = record { outcome = outcome; scope_kind = none; source = none; request_id = none }
