-- ===== src/ErrCode.antt =====
-- The wire protocol's error codes (`ErrCode`, crates/proto/src/lib.rs) and the results that carry
-- them.

use mathlib.Core.Path.{◌≡◌, refl}

pub data ErrCode : Type 0 where
  bad_request unknown_op version_mismatch unknown_token no_scope agent_tty : ErrCode
  foreign_caller not_human_key ambiguous_key denied timeout : ErrCode
  yubikey_unreachable too_many_pending internal : ErrCode

-- `Result<A, ErrCode>`
pub data Result {ℓ} (A : Type ℓ) : Type ℓ where
  ok : A → Result A
  err : ErrCode → Result A

infixl 5 ◌>>=◌
abbrev pub ◌>>=◌ {ℓ κ} : {A : Type ℓ} {B : Type κ} → Result A → (A → Result B) → Result B
ok a >>= f = f a
err e >>= f = err e

-- A bind that succeeds had something to go on with.
pub ok_of_bind {ℓ κ} :
    {A : Type ℓ} {B : Type κ} (r : Result A) (f : A → Result B) {b : B}
    → (r >>= f) ≡ ok b
    → (a : A) × (r ≡ ok a) × (f a ≡ ok b)
ok_of_bind (ok a) f h = (a, refl, h)
ok_of_bind (err e) f h = absurd (cc h)
