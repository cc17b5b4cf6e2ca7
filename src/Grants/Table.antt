-- ===== src/Grants/Table.antt =====
-- crates/secrets/src/grants/table.rs: the live grants. A method that takes `&mut self` returns the
-- new table.
use forward.Prelude.{
  ℕ, ◌-◌, Bool, true, false, not, ◌&&◌, Option, none, some, List, [], ◌∷◌, ◌++◌, ltb, find, any,
  retain, length, Text, text_eq, duration_since, checked_sub, as_secs,
}
use forward.Grants.Scope.{Scope, session, tty, SessionToken, token_eq, scope_eq}

-- crates/secrets/src/store.rs
pub record FileIdentity : Type 0 where
  pub device : ℕ
  pub inode : ℕ
  pub size : ℕ
  pub modified : ℕ × ℕ
  pub changed : ℕ × ℕ

pub record GrantOrigin : Type 0 where
  pub source : Text
  pub identity : FileIdentity

pub record Grant : Type 0 where
  pub scope : Scope
  pub key : Text
  pub value : Text
  pub origin : GrantOrigin
  pub created : ℕ
  pub ttl : ℕ

abbrev pub GrantTable : Type 0
GrantTable = List Grant

-- The grant is for this scope and key.
abbrev pub is_for : Scope → Text → Grant → Bool
is_for scope key grant = scope_eq grant.scope scope && text_eq grant.key key

abbrev pub is_live : ℕ → Grant → Bool
is_live now grant = ltb (duration_since now grant.created) grant.ttl

released : Option Grant → Option (Text × Text × FileIdentity)
released none = none
released (some grant) = some (grant.value, grant.origin.source, grant.origin.identity)

unfoldable pub lookup : Scope → Text → ℕ → GrantTable → Option (Text × Text × FileIdentity)
unfolding released
lookup scope key now grants =
    released (find (λ grant. is_for scope key grant && is_live now grant) grants)

remaining : ℕ → Option Grant → Option ℕ
remaining now none = none
remaining now (some grant) = elim (checked_sub grant.ttl (duration_since now grant.created)) [
  | none ↦ none
  | some left ↦ some (as_secs left)
]

unfoldable pub remaining_secs : Scope → Text → ℕ → GrantTable → Option ℕ
unfolding remaining
remaining_secs scope key now grants = remaining now (find (is_for scope key) grants)

unfoldable pub revoke : Scope → Text → GrantTable → GrantTable
revoke scope key = retain (λ grant. not (is_for scope key grant))

unfoldable pub insert : Scope → Text → Text → ℕ → GrantOrigin → ℕ → GrantTable → GrantTable
insert scope key value created origin ttl grants =
    retain (λ grant. not (is_for scope key grant)) grants
    ++ record {
      scope = scope;
      key = key;
      value = value;
      origin = origin;
      created = created;
      ttl = ttl;
    }
      ∷ []

unfoldable pub revoke_scope : Scope → GrantTable → GrantTable
revoke_scope scope = retain (λ grant. not (scope_eq grant.scope scope))

abbrev pub outside_tokens : List SessionToken → Scope → Bool
outside_tokens tokens (session token) = not (any (λ other. token_eq other token) tokens)
outside_tokens tokens (tty path boot_id) = true

unfoldable pub revoke_tokens : List SessionToken → GrantTable → GrantTable
revoke_tokens tokens = retain (λ grant. outside_tokens tokens grant.scope)

-- The table, and how many grants were removed.
unfoldable pub revoke_expired : ℕ → GrantTable → GrantTable × ℕ
revoke_expired now grants =
    let kept = retain (is_live now) grants in (kept, length grants - length kept)

unfoldable pub revoke_all : GrantTable → GrantTable
revoke_all grants = []

abbrev pub device_exists : (Text → Bool) → Scope → Bool
device_exists path_exists (session token) = true
device_exists path_exists (tty path boot_id) = path_exists path

unfoldable pub revoke_missing_ttys : (Text → Bool) → GrantTable → GrantTable
revoke_missing_ttys path_exists = retain (λ grant. device_exists path_exists grant.scope)

unfoldable pub is_empty : GrantTable → Bool
is_empty [] = true
is_empty (grant ∷ grants) = false
