-- ===== src/Prelude/Time.antt =====
-- Machine integers and time. A `Duration` and an `Instant` are counted in nanoseconds.
use Prim.Native.Nat.{ℕ, ◌+◌, ◌-◌, ◌*◌, ◌/◌}
use mathlib.Core.Bool.{Bool, true, false}
use mathlib.Core.Option.{Option, none, some}
use forward.Prelude.Tests.{leb, if◌then◌else◌}

abbrev pub u64_max : ℕ
u64_max = 18446744073709551615

abbrev pub second : ℕ
second = 1000000000

-- `Duration::MAX`: `u64::MAX` seconds and 999,999,999 nanoseconds.
abbrev pub duration_max : ℕ
duration_max = 18446744073709551615999999999

-- The last `Instant` that a 64-bit `timespec` holds.
abbrev pub instant_max : ℕ
instant_max = 9223372036854775807999999999

-- `u64::saturating_add`
abbrev pub saturating_add : ℕ → ℕ → ℕ
saturating_add a b = if leb (a + b) u64_max then a + b else u64_max

-- `Duration::saturating_mul(2)`
abbrev pub saturating_double : ℕ → ℕ
saturating_double d = if leb (2 * d) duration_max then 2 * d else duration_max

-- `Instant::checked_add`
abbrev pub checked_add : ℕ → ℕ → Option ℕ
checked_add t d = if leb (t + d) instant_max then some (t + d) else none

-- `Instant::checked_duration_since`
abbrev pub checked_duration_since : ℕ → ℕ → Option ℕ
checked_duration_since now then' = if leb then' now then some (now - then') else none

-- `Duration::checked_sub`
abbrev pub checked_sub : ℕ → ℕ → Option ℕ
checked_sub a b = if leb b a then some (a - b) else none

-- `Instant::duration_since`, which stops at zero.
abbrev pub duration_since : ℕ → ℕ → ℕ
duration_since now then' = now - then'

abbrev pub as_secs : ℕ → ℕ
as_secs d = d / second

-- `Option::is_some_and`
abbrev pub is_some_and {ℓ} : {A : Type ℓ} → Option A → (A → Bool) → Bool
is_some_and none p = false
is_some_and (some a) p = p a

abbrev pub is_some {ℓ} : {A : Type ℓ} → Option A → Bool
is_some none = false
is_some (some a) = true
