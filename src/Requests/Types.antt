-- ===== src/Requests/Types.antt =====
-- crates/secrets/src/requests/types.rs, and the queue's records (requests/queue.rs). A request's id
-- is the number that `RequestId` wraps.
use forward.Prelude.{ℕ, Bool, true, false, Option, List, Text}
use forward.Grants.Scope.{Scope}

pub data RequestState : Type 0 where
  pending decrypting granted denied timed_out failed : RequestState

pub record QueueLimits : Type 0 where
  pub cooldown : ℕ
  pub ttl : ℕ
  pub max_pending_per_scope : ℕ

pub record PendingRequest : Type 0 where
  pub id : ℕ
  pub scope : Scope
  pub key : Text
  pub state : RequestState
  pub generation : ℕ
  pub created : ℕ
  pub requested_ttl : Option ℕ

pub record Queue : Type 0 where
  pub requests : List PendingRequest
  pub limits : QueueLimits
  pub next_id : ℕ
  pub generation : ℕ
  pub inflight : Option ℕ
  pub last_finished : Option ℕ

-- `matches!(state, Pending | Decrypting)`
abbrev pub is_active : RequestState → Bool
is_active pending = true
is_active decrypting = true
is_active _ = false

abbrev pub is_pending : RequestState → Bool
is_pending pending = true
is_pending _ = false

abbrev pub is_decrypting : RequestState → Bool
is_decrypting decrypting = true
is_decrypting _ = false
