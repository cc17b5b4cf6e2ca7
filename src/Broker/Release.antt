-- ===== src/Broker/Release.antt =====
-- When a request gets a value or a receipt: crates/secrets/src/server/approval.rs and
-- server/dispatch/capability.rs.
use mathlib.Core.Path.{subst}
use forward.Prelude.{
  ap, ◌∙◌, ℕ, ◌≡◌, ◌≢◌, refl, Bool, true, false, Option, none, some, arith, Text, checked_add,
}
use forward.ErrCode.{Result, ok, err, ◌>>=◌}
use forward.Containment.{Kernel, PinnedPeer, descends_from}
use forward.Hex.{parse_hex}
use forward.Names.{parse_name}
use forward.Grants.Scope.{Scope, SessionToken, session}
use forward.Grants.Table.{GrantTable, FileIdentity, lookup}
use forward.Grants.Registry.{Registry, Registration, registration, resolve}
use forward.Grants.RegistryLaws.{resolve-session_iff}
use forward.Requests.Types.{Queue}
use forward.Requests.Queue as Queue
use forward.Requests.Types.{granted}
use forward.Requests.Sound.{IsSound}
use forward.Requests.Flight.{Describes}
use forward.Receipts.{Entropy, mint, receipt}
use forward.Broker.State.{State, Decision, receipt_text}
use forward.Broker.Approval.{
  Access, Backing, Approval, finished, approved, resolve_access, resolve_parsed, resolved,
  parse_token, begin_approval, answer_or_ask, ask, enqueue_until, queued, use_grant, is_unchanged,
  conclude,
}
use forward.Broker.Capability.{finish_authorization}
use forward.Broker.Waits.{receipt_needs_fields, finish_authorization-outcome}
use forward.Broker.Approved.{Awaited, Awaited-approved, conclude-fields, conclude-no_receipt}

-- What lets a request through.
abbrev pub Admits : Kernel → Access → Text → PinnedPeer → State → Scope → Text → Type 0
Admits k access token_hex caller s scope key =
    (token : SessionToken) × (entry : Registration) × (parse_hex token_hex ≡ ok token)
    × (parse_name access.key ≡ ok key)
    × (scope ≡ session token)
    × (registration token s.registry ≡ some entry)
    × (descends_from k caller entry.root ≡ true)

resolved-ok :
    (key key' : Text) (scope : Scope) (r : Registry × Result Scope) (s : State)
    → (resolved key r s).1 ≡ ok (scope, key')
    → (r.1 ≡ ok scope) × (key ≡ key')
unfolding resolved
resolved-ok key key' scope (registry, ok scope') s h = (cc h, cc h)
resolved-ok key key' scope (registry, err e) s h = absurd (cc h)

token_of :
    (token_hex : Text) (o : Result SessionToken)
    → parse_hex token_hex ≡ o
    → parse_token (some token_hex) ≡ (o >>= λ token. ok (some token))
unfolding parse_token
token_of token_hex o h = ap (λ x. x >>= λ token. ok (some token)) h

module _ (k : Kernel) (access : Access) (token_hex : Text) (caller : PinnedPeer) (s : State)
    (scope : Scope) (key : Text) where
  admits :
      (o : Result SessionToken) (n : Result Text)
      → parse_hex token_hex ≡ o
      → parse_name access.key ≡ n
      → (resolve_parsed k n (o >>= λ token. ok (some token)) access.tty caller s).1
        ≡ ok (scope, key)
      → Admits k access token_hex caller s scope key
  unfolding resolve_parsed
  admits o (err e) p n h = absurd (cc h)
  admits (err e) (ok name) p n h = absurd (cc h)
  admits (ok token) (ok name) p n h =
      let (found, same) =
        resolved-ok name key scope (resolve k (some token) access.tty (some caller) s.registry) s
          h in
      let (entry, c, registered, is_caller, descends, is_session) =
        (resolve-session_iff k token access.tty (some caller) s.registry scope).0 found in
      (
        token,
        entry,
        p,
        n ∙ ap ok same,
        is_session,
        registered,
        subst (λ x. descends_from k x entry.root ≡ true) (cc is_caller) descends,
      )

-- A request that presents a token is let through only for the key and the token that it names, and
-- only when the token is registered and the kernel places the caller in the process tree of the
-- session's pinned root.
pub resolve_access_session :
    (k : Kernel) (access : Access) (token_hex : Text) (caller : PinnedPeer) (s : State)
    (scope : Scope) (key : Text)
    → access.token_hex ≡ some token_hex
    → (resolve_access k access caller s).1 ≡ ok (scope, key)
    → (token : SessionToken) × (entry : Registration) × (parse_hex token_hex ≡ ok token)
      × (parse_name access.key ≡ ok key)
      × (scope ≡ session token)
      × (registration token s.registry ≡ some entry)
      × (descends_from k caller entry.root ≡ true)
unfolding resolve_access
resolve_access_session k access token_hex caller s scope key given h =
    let parsed : parse_token access.token_hex ≡ (parse_hex token_hex >>= λ token. ok (some token)) =
      ap parse_token given ∙ token_of token_hex (parse_hex token_hex) refl in
    admits k access token_hex caller s scope key (parse_hex token_hex) (parse_name access.key) refl
      refl
      (subst
        (λ t. (resolve_parsed k (parse_name access.key) t access.tty caller s).1 ≡ ok (scope, key))
        parsed h)

unchanged :
    (r : Result FileIdentity) (identity : FileIdentity)
    → is_unchanged r identity ≡ true
    → r ≡ ok identity
unchanged (ok current) identity h = ap ok (ground arith)
unchanged (err e) identity h = absurd (cc h)

abbrev Reuses : Backing → Scope → Text → Bool → Option (Text × Text × FileIdentity) → Text → Type 0
Reuses backing scope key force_fresh o source =
    (force_fresh ≡ false)
    × (value : Text) × (identity : FileIdentity) × (o ≡ some (value, source, identity))
    × (backing.identity key ≡ ok identity)

use_grant-Reuses :
    (backing : Backing) (scope : Scope) (key : Text) (force_fresh : Bool)
    (o : Option (Text × Text × FileIdentity)) (grants : GrantTable) (source : Text)
    → (use_grant backing scope key force_fresh o grants).1 ≡ some source
    → Reuses backing scope key force_fresh o source
unfolding use_grant
use_grant-Reuses backing scope key force_fresh none grants source h = absurd (cc h)
use_grant-Reuses backing scope key force_fresh (some (value, from, identity)) grants source h =
    let unmodified : is_unchanged (backing.identity key) identity ≡ true = ground arith in
    let reused : force_fresh ≡ false = ground arith in
    let same : from ≡ source = ground arith in
    (
      reused,
      value,
      identity,
      ap (λ x. some (value, x, identity)) same,
      unchanged (backing.identity key) identity unmodified,
    )

not_asked :
    (scope : Scope) (key : Text) (ttl : Option ℕ) (now : ℕ) (found : Result Text) (s : State)
    (source : Option Text)
    → (ask scope key ttl now found s).1 ≢ finished (approved source none)
unfolding ask
not_asked scope key ttl now (err e) s source h = cc h
not_asked scope key ttl now (ok file) s source h =
    not_until (checked_add now s.config.request_ttl) h
  where
    not_queued :
        (deadline : ℕ) (r : Queue × Result ℕ)
        → (queued file deadline r s).1 ≢ finished (approved source none)
    not_queued deadline (q, ok id) e = unfold queued in cc e
    not_queued deadline (q, err x) e = unfold queued in cc e

    not_until :
        (o : Option ℕ)
        → (enqueue_until scope key ttl now file o s).1 ≢ finished (approved source none)
    not_until none e = unfold enqueue_until in cc e
    not_until (some deadline) e =
        unfold enqueue_until in not_queued deadline (Queue.enqueue scope key now ttl s.queue) e

answer-Reuses :
    (backing : Backing) (scope : Scope) (key : Text) (ttl : Option ℕ) (now : ℕ)
    (r : GrantTable × Option Text) (s : State) (source : Option Text)
    → (answer_or_ask backing scope key ttl now r s).1 ≡ finished (approved source none)
    → (from : Text) × (r.1 ≡ some from) × (source ≡ some from)
unfolding answer_or_ask
answer-Reuses backing scope key ttl now (grants, some from) s source h = (from, refl, cc h)
answer-Reuses backing scope key ttl now (grants, none) s source h =
    absurd
      (not_asked scope key ttl now (backing.locate key) (record s { grants = grants }) source h)

-- A grant answers at once only where a fresh approval is not asked for, and its file is the one that
-- the value was read from.
pub at_once :
    (backing : Backing) (scope : Scope) (key : Text) (force_fresh : Bool) (ttl : Option ℕ)
    (looked now : ℕ) (s : State) (source : Option Text)
    → (begin_approval backing scope key force_fresh ttl looked now s).1
      ≡ finished (approved source none)
    → (force_fresh ≡ false)
      × (value : Text) × (from : Text) × (identity : FileIdentity) × (lookup scope key looked
            s.grants
          ≡ some (value, from, identity))
      × (backing.identity key ≡ ok identity)
      × (source ≡ some from)
unfolding begin_approval
at_once backing scope key force_fresh ttl looked now s source h =
    let found = lookup scope key looked s.grants in
    let (from, used, same) =
      answer-Reuses backing scope key ttl now
        (use_grant backing scope key force_fresh found s.grants) s source h in
    let (reused, value, identity, held, current) =
      use_grant-Reuses backing scope key force_fresh found s.grants from used in
    (reused, value, from, identity, held, current, same)

-- AUTHORIZE answers with a receipt only after an approval, and never on a grant that was there
-- before: where its wait began with a sound queue, asking for a fresh approval, the answer of the
-- wait is that the broker approved a request; that request stood in the queue for the scope and the
-- key when the wait began, and the queue had granted it when the wait ended. No LOCK has ended the
-- epoch that it began in, and the receipt is the one that `mint` makes.
pub receipt_needs_approval :
    (rounds : ℕ) (entropy : Entropy) (cap : Text) (epoch_before ended : ℕ) (backing : Backing)
    (access : Access) (scope : Scope) (key : Text) (looked now later concluded : ℕ)
    (first last between s : State) (a : Approval) (d : Decision) (hex : Text)
    → IsSound first.queue
    → Awaited backing scope key access.requested_ttl looked now later first last a
    → (finish_authorization rounds entropy cap epoch_before ended
        (conclude access false scope key concluded a between)
        s).1
      ≡ some d
    → d.outcome ≡ receipt_text hex
    → (source : Option Text) × (request : ℕ) × (a ≡ approved source (some request))
      × Describes scope key (
          Queue.describe request
            (begin_approval backing scope key true access.requested_ttl looked now first).0.queue)
      × (Queue.state_of request last.queue ≡ some granted)
      × (s.lock_epoch ≡ epoch_before)
      × ((mint rounds entropy cap ended s.receipts).1 ≡ receipt hex)
receipt_needs_approval rounds entropy cap epoch_before ended backing access scope key looked now
      later concluded first last between s a d hex sound wait finish is_receipt =
    let decision : Decision = conclude access false scope key concluded a between in
    let answer =
      finish_authorization-outcome rounds entropy cap epoch_before ended decision s d finish
      ∙ ap some is_receipt in
    let ((f, is_fields), named, epoch, minted) =
      receipt_needs_fields rounds entropy cap epoch_before ended decision.outcome
        decision.request_id s hex (conclude-no_receipt access scope key concluded a between)
        answer in
    let (source, is_approved) = conclude-fields access scope key concluded a between f is_fields in
    let (request, is_named, described, is_granted) = Awaited-approved wait sound is_approved in
    (
      source,
      request,
      is_approved ∙ ap (approved source) is_named,
      described,
      is_granted,
      epoch,
      minted,
    )
