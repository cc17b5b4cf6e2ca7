-- ===== src/Broker/Invariant.antt =====
-- What every step of the broker keeps (crates/secrets/src/server.rs, server/worker.rs).
use mathlib.Core.Path.{subst}
use forward.Prelude.{
  sym, ap, ℕ, ◌≤◌, ◌≡◌, refl, Bool, not, Option, none, some, List, [], arith, Text, inl, inr,
  Bool-cases, checked_add, saturating_add,
}
use forward.ErrCode.{Result, ok, err}
use forward.Containment.{Kernel, PinnedPeer}
use forward.Hex.{parse_hex}
use forward.Names.{parse_name}
use forward.Grants.Scope.{Scope, SessionToken}
use forward.Grants.Table.{
  GrantTable, revoke, lookup, FileIdentity, revoke_all, revoke_tokens, revoke_expired,
  revoke_missing_ttys, device_exists, is_live, is_for,
}
use forward.Grants.Registry.{Registration, Registry, registration}
use forward.Grants.Registry as Registry
use forward.Receipts as Receipts
use forward.CapabilityGrants as CapabilityGrants
use forward.Requests.Types.{Queue}
use forward.Requests.Queue as Queue
use forward.Broker.State.{State, Config}
use forward.Broker.Control.{register, registered, register_token, unregister, lock}
use forward.Broker.Approval.{
  Access, Backing, resolve_access, resolve_parsed, resolved, begin_approval, answer_or_ask, ask,
  enqueue_until, queued, use_grant, is_unchanged, parse_token,
}
use forward.Broker.Worker.{begin_job, upkeep, sweep_queue, effective_grant_ttl}
use forward.Broker.Registered.{
  IsSafe, longest, register-IsSafe, refused-IsSafe, unregister-IsSafe, resolve-IsSafe,
  retain-IsSafe,
}
use forward.Broker.Authority.{
  authority, authority-deny_running, authority-take_ready, authority-sweep_queue,
}

abbrev pub SafeAt : State → Type 0
SafeAt s = IsSafe s.registry s.grants s.config

pub same_authority : (s s' : State) → authority s' ≡ authority s → SafeAt s → SafeAt s'
same_authority s s' same h = subst (λ a. IsSafe a.0 a.1 a.2) (sym same) h

pub effective-longest :
    (requested : Option ℕ) (config : Config)
    → effective_grant_ttl requested config.max_grant config.max_requested_grant ≤ longest config
unfolding effective_grant_ttl
effective-longest none config = ground arith
effective-longest (some secs) config = ground arith

registered-SafeAt :
    (x : Registration) (r : Registry × Result (List SessionToken)) (s : State)
    → Registry.register x s.registry ≡ r
    → SafeAt s
    → SafeAt (registered s r).0
unfolding registered
registered-SafeAt x (registry, ok displaced) s same h =
    subst (λ r. IsSafe r (revoke_tokens displaced s.grants) s.config) (ap (λ p. p.0) same)
      (register-IsSafe x s.registry displaced s.grants s.config (ap (λ p. p.1) same) h)
registered-SafeAt x (registry, err e) s same h =
    subst (λ r. IsSafe r s.grants s.config) (ap (λ p. p.0) same)
      (refused-IsSafe x s.registry e s.grants s.config (ap (λ p. p.1) same) h)

register_token-SafeAt :
    (token : Result SessionToken) (id : Text) (root : PinnedPeer) (s : State)
    → SafeAt s
    → SafeAt (register_token token id root s).0
unfolding register_token
register_token-SafeAt (ok token) id root s h =
    let x : Registration = record { token = token; session_id = id; root = root } in
    registered-SafeAt x (Registry.register x s.registry) s refl h
register_token-SafeAt (err e) id root s h = h

pub register-SafeAt :
    (token_hex id : Text) (root : PinnedPeer) (s : State)
    → SafeAt s
    → SafeAt (register token_hex id root s).0
unfolding register
register-SafeAt token_hex id root s h = register_token-SafeAt (parse_hex token_hex) id root s h

pub unregister-SafeAt : (id : Text) (s : State) → SafeAt s → SafeAt (unregister id s).0
unfolding unregister
unregister-SafeAt id s h = unregister-IsSafe id s.registry s.grants s.config h

pub lock-SafeAt : (now : ℕ) (s : State) → SafeAt s → SafeAt (lock now s).0
unfolding lock revoke_all
lock-SafeAt now s h =
    let locked : State = record s {
      grants = [];
      receipts = Receipts.clear s.receipts;
      capability_grants = CapabilityGrants.clear s.capability_grants;
      lock_epoch = saturating_add s.lock_epoch 1;
    } in
    same_authority locked (lock now s).0 (authority-deny_running s.active_decrypt now locked)
      (record { distinct = h.distinct; all_registered = tt; bounded = tt })

resolve_parsed-SafeAt :
    (k : Kernel) (key : Result Text) (token : Result (Option SessionToken)) (path : Option Text)
    (caller : PinnedPeer) (s : State)
    → SafeAt s
    → SafeAt (resolve_parsed k key token path caller s).0
unfolding resolve_parsed resolved
resolve_parsed-SafeAt k (err e) token path caller s h = h
resolve_parsed-SafeAt k (ok key) (err e) path caller s h = h
resolve_parsed-SafeAt k (ok key) (ok token) path caller s h =
    resolve-IsSafe k token path (some caller) s.registry s.grants s.config h

pub resolve_access-SafeAt :
    (k : Kernel) (access : Access) (caller : PinnedPeer) (s : State)
    → SafeAt s
    → SafeAt (resolve_access k access caller s).0
unfolding resolve_access
resolve_access-SafeAt k access caller s h =
    resolve_parsed-SafeAt k (parse_name access.key) (parse_token access.token_hex) access.tty caller
      s h

use_grant-IsSafe :
    (backing : Backing) (scope : Scope) (key : Text) (force_fresh : Bool)
    (o : Option (Text × Text × FileIdentity)) (s : State)
    → SafeAt s
    → IsSafe s.registry (use_grant backing scope key force_fresh o s.grants).0 s.config
unfolding use_grant revoke
use_grant-IsSafe backing scope key force_fresh none s h = h
use_grant-IsSafe backing scope key force_fresh (some (value, source, identity)) s h =
    let revoked = retain-IsSafe (λ g. not (is_for scope key g)) s.registry s.grants s.config h in
    elim (Bool-cases (is_unchanged (backing.identity key) identity)) [
      | inl same ↦ elim (Bool-cases force_fresh) [
        | inl fresh ↦ rw same (rw fresh revoked)
        | inr reuse ↦ rw same (rw reuse h)
      ]
      | inr changed ↦ rw changed revoked
    ]

queued-authority :
    (source : Text) (deadline : ℕ) (r : Queue × Result ℕ) (s : State)
    → authority (queued source deadline r s).0 ≡ authority s
unfolding queued
queued-authority source deadline (q, ok id) s = refl
queued-authority source deadline (q, err e) s = refl

ask-authority :
    (scope : Scope) (key : Text) (ttl : Option ℕ) (now : ℕ) (source : Result Text) (s : State)
    → authority (ask scope key ttl now source s).0 ≡ authority s
unfolding ask enqueue_until
ask-authority scope key ttl now (err e) s = refl
ask-authority scope key ttl now (ok source) s = until (checked_add now s.config.request_ttl)
  where
    until : (o : Option ℕ) → authority (enqueue_until scope key ttl now source o s).0 ≡ authority s
    until none = refl
    until (some deadline) =
        queued-authority source deadline (Queue.enqueue scope key now ttl s.queue) s

answer-SafeAt :
    (backing : Backing) (scope : Scope) (key : Text) (ttl : Option ℕ) (now : ℕ)
    (r : GrantTable × Option Text) (s : State)
    → IsSafe s.registry r.0 s.config
    → SafeAt (answer_or_ask backing scope key ttl now r s).0
unfolding answer_or_ask
answer-SafeAt backing scope key ttl now (grants, some source) s h = h
answer-SafeAt backing scope key ttl now (grants, none) s h =
    let revoked : State = record s { grants = grants } in
    same_authority revoked (ask scope key ttl now (backing.locate key) revoked).0
      (ask-authority scope key ttl now (backing.locate key) revoked) h

pub begin_approval-SafeAt :
    (backing : Backing) (scope : Scope) (key : Text) (force_fresh : Bool) (ttl : Option ℕ)
    (looked now : ℕ) (s : State)
    → SafeAt s
    → SafeAt (begin_approval backing scope key force_fresh ttl looked now s).0
unfolding begin_approval
begin_approval-SafeAt backing scope key force_fresh ttl looked now s h =
    answer-SafeAt backing scope key ttl now
      (use_grant backing scope key force_fresh (lookup scope key looked s.grants) s.grants) s
      (use_grant-IsSafe backing scope key force_fresh (lookup scope key looked s.grants) s h)

upkeep-SafeAt : (k : Kernel) (now : ℕ) (s : State) → SafeAt s → SafeAt (upkeep k now s)
unfolding upkeep revoke_expired revoke_missing_ttys
upkeep-SafeAt k now s h =
    let swept : SafeAt (sweep_queue now s) =
      same_authority s (sweep_queue now s) (authority-sweep_queue now s) h in
    retain-IsSafe (λ g. device_exists k.path_exists g.scope) _ _ _
      (retain-IsSafe (is_live now) _ _ _ swept)

pub begin_job-SafeAt : (k : Kernel) (now : ℕ) (s : State) → SafeAt s → SafeAt (begin_job k now s).0
unfolding begin_job
begin_job-SafeAt k now s h =
    same_authority (upkeep k now s) (begin_job k now s).0
      (authority-take_ready now (Queue.next_ready now (upkeep k now s).queue) (upkeep k now s))
      (upkeep-SafeAt k now s h)
