-- ===== src/Broker/Registered.antt =====
-- The grants of the broker (crates/secrets/src/server.rs) belong to sessions that are registered.
use mathlib.Core.Path.{subst}
use forward.Prelude.{
  sym, ap, ◌∙◌, ℕ, ◌≤◌, ◌≡◌, refl, Bool, true, false, not, Option, none, some, List, [], ◌∷◌, arith,
  leb, if◌then◌else◌, Text, All, All-append, retain, any, find, inl, inr, Bool-cases,
}
use forward.ErrCode.{ErrCode, ok, err}
use forward.Containment.{Kernel, PinnedPeer}
use forward.Grants.Scope.{Scope, SessionToken, session, tty, token_eq}
use forward.Grants.Table.{
  Grant, GrantTable, GrantOrigin, is_for, insert, outside_tokens, revoke_tokens,
}
use forward.Grants.Registry.{
  Registration, Registry, registration, register, unregister, has_token, tokens_of, resolve,
}
use forward.Grants.RegistryLaws.{
  AreDistinct, register-AreDistinct, unregister-AreDistinct, registration-register,
  registration-unregister,
}
use forward.Broker.State.{Config}

-- The scope names a registered session, or a terminal.
abbrev pub IsRegistered : Registry → Scope → Type 0
IsRegistered r (session token) = (entry : Registration) × (registration token r ≡ some entry)
IsRegistered r (tty path boot_id) = Unit

abbrev pub longest : Config → ℕ
longest config =
    if leb config.max_grant config.max_requested_grant
    then config.max_requested_grant
    else config.max_grant

-- Tokens and sessions are distinct; every grant is for a registered session or a terminal, and lives
-- no longer than the configuration allows.
pub record IsSafe (registry : Registry) (grants : GrantTable) (config : Config) : Type 0 where
  pub distinct : AreDistinct registry.sessions
  pub all_registered : All (λ g. IsRegistered registry g.scope) grants
  pub bounded : All (λ g. g.ttl ≤ longest config) grants

pub All-kept {ℓ κ μ} :
    {A : Type ℓ} {P : A → Type κ} {Q : A → Type μ} (q : A → Bool) (xs : List A)
    → ((x : A) → q x ≡ true → P x → Q x)
    → All P xs
    → All Q (retain q xs)
All-kept q [] f h = tt
All-kept {Q = Q} q (x ∷ xs) f h = elim (Bool-cases (q x)) [
  | inl keep ↦ rw keep (f x keep h.0, All-kept q xs f h.1)
  | inr drop' ↦ rw drop' (All-kept q xs f h.1)
]

-- Tokens that are revoked are exactly those that may have lost their registration.
still-IsRegistered :
    (old new : Registry) (tokens : List SessionToken)
    → ((t : SessionToken) (entry : Registration)
        → any (λ d. token_eq d t) tokens ≡ false
        → registration t old ≡ some entry
        → IsRegistered new (session t))
    → (scope : Scope) → outside_tokens tokens scope ≡ true
    → IsRegistered old scope
    → IsRegistered new scope
still-IsRegistered old new tokens keeps (session t) out h = keeps t h.0 (ground arith) h.1
still-IsRegistered old new tokens keeps (tty path boot_id) out h = tt

revoked-IsSafe :
    (old new : Registry) (tokens : List SessionToken) (grants : GrantTable) (config : Config)
    → AreDistinct new.sessions
    → ((t : SessionToken) (entry : Registration)
        → any (λ d. token_eq d t) tokens ≡ false
        → registration t old ≡ some entry
        → IsRegistered new (session t))
    → IsSafe old grants config
    → IsSafe new (revoke_tokens tokens grants) config
unfolding revoke_tokens
revoked-IsSafe old new tokens grants config distinct keeps h = record {
  distinct = distinct;
  all_registered =
      All-kept (λ g. outside_tokens tokens g.scope) grants
        (λ g out r. still-IsRegistered old new tokens keeps g.scope out r) h.all_registered;
  bounded = All-kept (λ g. outside_tokens tokens g.scope) grants (λ g out le. le) h.bounded;
}

unregister-keeps :
    (id : Text) (r : Registry) (t : SessionToken) (entry : Registration)
    → AreDistinct r.sessions
    → any (λ d. token_eq d t) (unregister id r).1 ≡ false
    → registration t r ≡ some entry
    → IsRegistered (unregister id r).0 (session t)
unregister-keeps id r t entry h out found = (entry, registration-unregister id t r h ∙ rw out found)

pub unregister-IsSafe :
    (id : Text) (r : Registry) (grants : GrantTable) (config : Config)
    → IsSafe r grants config
    → IsSafe (unregister id r).0 (revoke_tokens (unregister id r).1 grants) config
unregister-IsSafe id r grants config h =
    revoked-IsSafe r (unregister id r).0 (unregister id r).1 grants config
      (unregister-AreDistinct id r h.distinct)
      (λ t entry out found. unregister-keeps id r t entry h.distinct out found) h

displaced_fresh :
    (x : Registration) (r : Registry) (tokens : List SessionToken)
    → any (has_token x.token) r.sessions ≡ false
    → (register x r).1 ≡ ok tokens
    → tokens_of x.session_id r.sessions ≡ tokens
unfolding register
displaced_fresh x r tokens fresh answer =
    let got : ok (tokens_of x.session_id r.sessions) ≡ (register x r).1 = rw fresh refl in
    cc (got, answer)

-- A registration keeps every registration but those whose tokens it displaces.
register-keeps :
    (x : Registration) (r : Registry) (tokens : List SessionToken) (t : SessionToken)
    (entry : Registration)
    → AreDistinct r.sessions
    → (register x r).1 ≡ ok tokens
    → any (λ d. token_eq d t) tokens ≡ false
    → registration t r ≡ some entry
    → IsRegistered (register x r).0 (session t)
register-keeps x r tokens t entry h answer out found =
    elim (Bool-cases (any (has_token x.token) r.sessions)) [
      | inl known ↦ (entry, registration-register x t r h ∙ rw known found)
      | inr fresh ↦ elim (Bool-cases (token_eq x.token t)) [
        | inl same ↦ (x, registration-register x t r h ∙ rw fresh (rw same refl))
        | inr other ↦
            let out' : any (λ d. token_eq d t) (tokens_of x.session_id r.sessions) ≡ false =
              ap (any (λ d. token_eq d t)) (displaced_fresh x r tokens fresh answer) ∙ out in
            (entry, registration-register x t r h ∙ rw fresh (rw other (rw out' found)))
      ]
    ]

pub register-IsSafe :
    (x : Registration) (r : Registry) (tokens : List SessionToken) (grants : GrantTable)
    (config : Config)
    → (register x r).1 ≡ ok tokens
    → IsSafe r grants config
    → IsSafe (register x r).0 (revoke_tokens tokens grants) config
register-IsSafe x r tokens grants config answer h =
    revoked-IsSafe r (register x r).0 tokens grants config (register-AreDistinct x r h.distinct)
      (λ t entry out found. register-keeps x r tokens t entry h.distinct answer out found) h

-- A refused registration changes nothing.
register-err :
    (x : Registration) (r : Registry) (e : ErrCode)
    → (register x r).1 ≡ err e
    → (register x r).0 ≡ r
unfolding register
register-err x r e h = elim (Bool-cases (any (has_token x.token) r.sessions)) [
  | inl known ↦ rw known refl
  | inr fresh ↦
      let got : ok (tokens_of x.session_id r.sessions) ≡ (register x r).1 = rw fresh refl in
      absurd (cc (got, h))
]

pub refused-IsSafe :
    (x : Registration) (r : Registry) (e : ErrCode) (grants : GrantTable) (config : Config)
    → (register x r).1 ≡ err e
    → IsSafe r grants config
    → IsSafe (register x r).0 grants config
refused-IsSafe x r e grants config h safe =
    subst (λ r'. IsSafe r' grants config) (sym (register-err x r e h)) safe

same_scope :
    (old new : Registry)
    → new.sessions ≡ old.sessions
    → (scope : Scope) → IsRegistered old scope
    → IsRegistered new scope
unfolding registration
same_scope old new same (session t) h = (h.0, ap (find (has_token t)) same ∙ h.1)
same_scope old new same (tty path boot_id) h = tt

All-weaken :
    {P Q : Grant → Type 0} (grants : GrantTable)
    → ((g : Grant) → P g → Q g)
    → All P grants
    → All Q grants
All-weaken [] f h = tt
All-weaken (g ∷ grants) f h = (f g h.0, All-weaken grants f h.1)

sessions-resolve :
    (k : Kernel) (token : Option SessionToken) (path : Option Text) (caller : Option PinnedPeer)
    (r : Registry)
    → (resolve k token path caller r).0.sessions ≡ r.sessions
unfolding resolve
sessions-resolve k (some token) path caller r = ground arith
sessions-resolve k none (some path) caller r = ground arith
sessions-resolve k none none caller r = refl

-- Resolving a scope teaches the registry a terminal at most.
pub resolve-IsSafe :
    (k : Kernel) (token : Option SessionToken) (path : Option Text) (caller : Option PinnedPeer)
    (r : Registry) (grants : GrantTable) (config : Config)
    → IsSafe r grants config
    → IsSafe (resolve k token path caller r).0 grants config
resolve-IsSafe k token path caller r grants config h =
    let same : (resolve k token path caller r).0.sessions ≡ r.sessions =
      sessions-resolve k token path caller r in
    record {
      distinct = subst AreDistinct (sym same) h.distinct;
      all_registered =
          All-weaken grants (λ g. same_scope r (resolve k token path caller r).0 same g.scope)
            h.all_registered;
      bounded = h.bounded;
    }

pub retain-IsSafe :
    (q : Grant → Bool) (r : Registry) (grants : GrantTable) (config : Config)
    → IsSafe r grants config
    → IsSafe r (retain q grants) config
retain-IsSafe q r grants config h = record {
  distinct = h.distinct;
  all_registered = All-kept q grants (λ g keep reg. reg) h.all_registered;
  bounded = All-kept q grants (λ g keep le. le) h.bounded;
}

pub insert-IsSafe :
    (scope : Scope) (key value : Text) (created : ℕ) (origin : GrantOrigin) (ttl : ℕ) (r : Registry)
    (grants : GrantTable) (config : Config)
    → IsRegistered r scope
    → ttl ≤ longest config
    → IsSafe r grants config
    → IsSafe r (insert scope key value created origin ttl grants) config
unfolding insert
insert-IsSafe scope key value created origin ttl r grants config known short h =
    let kept = retain-IsSafe (λ g. not (is_for scope key g)) r grants config h in
    record {
      distinct = h.distinct;
      all_registered =
          All-append (λ g. IsRegistered r g.scope) (retain (λ g. not (is_for scope key g)) grants) _
            kept.all_registered (known, tt);
      bounded =
          All-append (λ g. g.ttl ≤ longest config) (retain (λ g. not (is_for scope key g)) grants) _
            kept.bounded (short, tt);
    }
