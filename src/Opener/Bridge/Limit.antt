-- ===== src/Opener/Bridge/Limit.antt =====
-- crates/forward/src/bridge/limit.rs: how many connections the bridge serves at once.
use forward.Prelude.{
  ℕ, suc, ◌+◌, ◌-◌, ◌≤◌, ◌≡◌, ◌↔◌, refl, Bool, true, false, inl, inr, Bool-cases, arith, ◌==◌,
  if◌then◌else◌,
}

pub record ConnectionLimit : Type 0 where
  pub active : ℕ
  pub capacity : ℕ

-- `ConnectionLimit::standard`
abbrev pub standard : ConnectionLimit
standard = record { active = 0; capacity = 32 }

-- Whether a permit was given.
unfoldable pub acquire : ConnectionLimit → ConnectionLimit × Bool
acquire l =
    if l.active == l.capacity then (l, false) else (record l { active = l.active + 1 }, true)

-- The drop of a permit.
unfoldable pub drop_permit : ConnectionLimit → ConnectionLimit
drop_permit l = record l { active = l.active - 1 }

-- A connection comes, or one of those that were let in ends. The permits that are out are counted
-- apart from the code's own count.
pub data Serves : ConnectionLimit → ℕ → Type 0 where
  start : {n : ℕ} → Serves (record { active = 0; capacity = n }) 0
  comes :
      {l : ConnectionLimit} {out : ℕ}
      → Serves l out
      → Serves (acquire l).0 (if (acquire l).1 then suc out else out)
  ends : {l : ConnectionLimit} {out : ℕ} → Serves l (suc out) → Serves (drop_permit l) out

comes_counted :
    (l : ConnectionLimit) (out : ℕ)
    → l.active ≡ out
    → out ≤ l.capacity
    → ((acquire l).0.active ≡ (if (acquire l).1 then suc out else out))
      × ((if (acquire l).1 then suc out else out) ≤ (acquire l).0.capacity)
unfolding acquire
comes_counted l out same fits = elim (Bool-cases (l.active == l.capacity)) [
  | inl full ↦ rw full (same, fits)
  | inr room ↦ rw room (omega (arith, same), ground arith)
]

counted : {l : ConnectionLimit} {out : ℕ} → Serves l out → (l.active ≡ out) × (out ≤ l.capacity)
unfolding drop_permit
counted start = (refl, omega arith)
counted (comes {l = l} {out = out} h) =
    let (same, fits) = counted h in comes_counted l out same fits
counted (ends h) = let (same, fits) = counted h in (omega (arith, same), omega (arith, fits))

-- However connections come and end, the count is the number of permits that are out, which never
-- exceeds the capacity, and a connection is refused exactly when they are as many.
pub permits-bounds :
    (l : ConnectionLimit) (out : ℕ)
    → Serves l out
    → (l.active ≡ out) × (out ≤ l.capacity) × (((acquire l).1 ≡ false) ↔ (out ≡ l.capacity))
unfolding acquire
permits-bounds l out h =
    let (same, fits) = counted h in (same, fits, ((λ r. ground arith), (λ e. ground arith)))
