-- ===== src/Grants/TableLaws.antt =====
-- What the grant table promises: lookups after each operation, expiry, one grant for a scope and
-- key.
use forward.Prelude.{
  ℕ, ◌-◌, ◌/◌, ◌≤◌, ◌≡◌, refl, Bool, true, false, not, ◌&&◌, none, some, List, [], ◌∷◌, ◌++◌, arith,
  ltb, if◌then◌else◌, any, retain, Text, text_eq, duration_since, second, leb, inl, inr, Bool-cases,
}
use forward.Grants.Scope.{Scope, SessionToken, scope_eq}
use forward.Grants.Table.{
  GrantOrigin, Grant, GrantTable, is_for, lookup, remaining_secs, revoke, insert, revoke_scope,
  revoke_tokens, revoke_expired, outside_tokens,
}

-- A lookup after an insertion: the new value for its own scope and key while its own lifetime
-- lasts and nothing after it, and what the table held for every other scope or key.
pub lookup-insert :
    (scope scope' : Scope) (key key' value : Text) (created now : ℕ) (origin : GrantOrigin)
    (ttl : ℕ) (grants : GrantTable)
    → lookup scope' key' now (insert scope key value created origin ttl grants) ≡ (
        if scope_eq scope scope' && text_eq key key'
        then (if ltb (duration_since now created) ttl
            then some (value, origin.source, origin.identity)
            else none)
        else lookup scope' key' now grants)
unfolding lookup insert
lookup-insert scope scope' key key' value created now origin ttl [] = ground arith
lookup-insert scope scope' key key' value created now origin ttl (g ∷ grants) =
    ground (arith, lookup-insert scope scope' key key' value created now origin ttl grants)

-- A lookup after a revocation of one scope and key.
pub lookup-revoke :
    (scope scope' : Scope) (key key' : Text) (now : ℕ) (grants : GrantTable)
    → lookup scope' key' now (revoke scope key grants)
      ≡ (if scope_eq scope scope' && text_eq key key' then none else lookup scope' key' now grants)
unfolding lookup revoke
lookup-revoke scope scope' key key' now [] = ground arith
lookup-revoke scope scope' key key' now (g ∷ grants) =
    ground (arith, lookup-revoke scope scope' key key' now grants)

pub lookup-revoke_scope :
    (scope scope' : Scope) (key : Text) (now : ℕ) (grants : GrantTable)
    → lookup scope' key now (revoke_scope scope grants)
      ≡ (if scope_eq scope scope' then none else lookup scope' key now grants)
unfolding lookup revoke_scope
lookup-revoke_scope scope scope' key now [] = ground arith
lookup-revoke_scope scope scope' key now (g ∷ grants) =
    ground (arith, lookup-revoke_scope scope scope' key now grants)

-- After the grants of some tokens are revoked, a lookup finds nothing for a scope of one of them, and
-- what it found before for every other scope.
pub lookup-revoke_tokens :
    (tokens : List SessionToken) (scope : Scope) (key : Text) (now : ℕ) (grants : GrantTable)
    → lookup scope key now (revoke_tokens tokens grants)
      ≡ (if outside_tokens tokens scope then lookup scope key now grants else none)
unfolding lookup revoke_tokens
lookup-revoke_tokens tokens scope key now [] = ground arith
lookup-revoke_tokens tokens scope key now (g ∷ grants) =
    ground (arith, lookup-revoke_tokens tokens scope key now grants)

-- Sweeping expired grants at one time changes no lookup at that time or later.
pub lookup-revoke_expired :
    (scope : Scope) (key : Text) (now later : ℕ) (grants : GrantTable)
    → now ≤ later
    → lookup scope key later (revoke_expired now grants).0 ≡ lookup scope key later grants
unfolding lookup revoke_expired
lookup-revoke_expired scope key now later [] h = refl
lookup-revoke_expired scope key now later (g ∷ grants) h =
    ground (arith, lookup-revoke_expired scope key now later grants)

-- The lifetime that is left of a grant just inserted, in whole seconds, and nothing once more than its
-- lifetime has passed. At the very end of its lifetime it is 0 seconds, not nothing.
pub remaining_secs-insert :
    (scope : Scope) (key value : Text) (created now : ℕ) (origin : GrantOrigin) (ttl : ℕ)
    (grants : GrantTable)
    → remaining_secs scope key now (insert scope key value created origin ttl grants)
      ≡ (if leb (now - created) ttl then some ((ttl - (now - created)) / second) else none)
unfolding remaining_secs insert
remaining_secs-insert scope key value created now origin ttl [] = ground arith
remaining_secs-insert scope key value created now origin ttl (g ∷ grants) =
    ground (arith, remaining_secs-insert scope key value created now origin ttl grants)

-- At most one grant for a scope and key.
abbrev pub IsUnique : GrantTable → Type 0
IsUnique [] = Unit
IsUnique (g ∷ grants) = (any (is_for g.scope g.key) grants ≡ false) × IsUnique grants

any-retain-false_of_any :
    (p q : Grant → Bool) (grants : GrantTable)
    → any p grants ≡ false
    → any p (retain q grants) ≡ false
any-retain-false_of_any p q [] h = refl
any-retain-false_of_any p q (g ∷ grants) h = ground (arith, any-retain-false_of_any p q grants)

pub retain-IsUnique :
    (q : Grant → Bool) (grants : GrantTable) → IsUnique grants → IsUnique (retain q grants)
retain-IsUnique q [] h = tt
retain-IsUnique q (g ∷ grants) h =
    keep (q g) (retain-IsUnique q grants h.1)
      (any-retain-false_of_any (is_for g.scope g.key) q grants h.0)
  where
    keep :
        (b : Bool)
        → IsUnique (retain q grants)
        → any (is_for g.scope g.key) (retain q grants) ≡ false
        → IsUnique (if b then g ∷ retain q grants else retain q grants)
    keep true rest fresh = (fresh, rest)
    keep false rest fresh = rest

any-others_append :
    (g new : Grant) (grants : GrantTable)
    → is_for new.scope new.key g ≡ false
    → any (is_for g.scope g.key) grants ≡ false
    → any (is_for g.scope g.key) (grants ++ new ∷ []) ≡ false
any-others_append g new [] other h = ground arith
any-others_append g new (x ∷ grants) other h = ground (arith, any-others_append g new grants)

append-IsUnique :
    (new : Grant) (grants : GrantTable)
    → IsUnique grants
    → IsUnique (retain (λ grant. not (is_for new.scope new.key grant)) grants ++ new ∷ [])
append-IsUnique new [] h = (refl, tt)
append-IsUnique new (g ∷ grants) h = elim (Bool-cases (is_for new.scope new.key g)) [
  | inl same ↦ rw same (append-IsUnique new grants h.1)
  | inr other ↦ rw other (
    any-others_append g new (retain (λ grant. not (is_for new.scope new.key grant)) grants) other (
        any-retain-false_of_any (is_for g.scope g.key)
          (λ grant. not (is_for new.scope new.key grant)) grants h.0),
    append-IsUnique new grants h.1,
  )
]

-- Insertion keeps at most one grant for each scope and key.
pub insert-IsUnique :
    (scope : Scope) (key value : Text) (created : ℕ) (origin : GrantOrigin) (ttl : ℕ)
    (grants : GrantTable)
    → IsUnique grants
    → IsUnique (insert scope key value created origin ttl grants)
unfolding insert
insert-IsUnique scope key value created origin ttl grants h =
    append-IsUnique
      (record {
        scope = scope;
        key = key;
        value = value;
        origin = origin;
        created = created;
        ttl = ttl;
      })
      grants h
