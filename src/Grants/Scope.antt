-- ===== src/Grants/Scope.antt =====
-- crates/secrets/src/grants/scope.rs: what a grant belongs to. A token is its 32 bytes.
use forward.Prelude.{Text, Text-discrete, Bool, holds}

abbrev pub SessionToken : Type 0
SessionToken = Text

abbrev pub token_eq : SessionToken → SessionToken → Bool
token_eq a b = holds (Text-discrete a b)

pub data Scope : Type 0 where
  session : SessionToken → Scope
  tty : Text → Text → Scope

pub data ScopeKind : Type 0 where
  verified_session tokenless_tty : ScopeKind

unfoldable pub kind : Scope → ScopeKind
kind (session token) = verified_session
kind (tty path boot_id) = tokenless_tty

unfoldable pub Scope-discrete : Discrete Scope
unfolding Text-discrete
Scope-discrete = hlevel (Text-discrete)

abbrev pub scope_eq : Scope → Scope → Bool
scope_eq a b = holds (Scope-discrete a b)
