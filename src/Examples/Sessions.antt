-- ===== src/Examples/Sessions.antt =====
-- The theorems on sessions, grants and processes at concrete inputs.
use forward.Prelude.{ℕ, ◌<◌, ◌≡◌, ◌↔◌, true, none, some, [], ◌∷◌, codes}
use forward.ErrCode.{ok}
use forward.Containment.{
  PinnedPeer, Ancestor, descends_from_pid, descends_from, descends_from_pid_decides,
}
use forward.Grants.Scope.{session}
use forward.Grants.Registry.{Registration, Registry, registration, resolve}
use forward.Grants.RegistryLaws.{resolve-session_iff}
use forward.Examples.Data.{token_bytes, agent, small_kernel, root_entry}

abbrev one_session : Registry
one_session = record { sessions = root_entry ∷ []; agent_ttys = []; boot_id = codes "boot" }

descends_from_pid_decides_example :
    (descends_from_pid small_kernel 12 10 ≡ true)
    ↔ ((n : ℕ) × (n < 64) × Ancestor small_kernel 10 n 12)
descends_from_pid_decides_example = descends_from_pid_decides small_kernel 12 10

resolve-session_iff_example :
    ((resolve small_kernel (some token_bytes) none (some 2) one_session).1 ≡ ok agent) ↔ (
      (entry : Registration) × (c : PinnedPeer) × (registration token_bytes one_session
        ≡ some entry)
      × (some 2 ≡ some c)
      × (descends_from small_kernel c entry.root ≡ true)
      × (agent ≡ session token_bytes))
resolve-session_iff_example =
    resolve-session_iff small_kernel token_bytes none (some 2) one_session agent
