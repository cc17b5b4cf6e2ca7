-- ===== src/Grants/Refines.antt =====
-- The grant table of crates/secrets/src/grants/table.rs against what it promises its clients: at a
-- time, an answer for each scope and key.
use forward.Prelude.{
  ℕ, ◌≤◌, ◌≡◌, refl, ap, ◌∙◌, Bool, ◌&&◌, Option, none, some, List, [], ◌∷◌, arith, ltb,
  if◌then◌else◌, Text, text_eq, duration_since,
}
use forward.Grants.Scope.{Scope, SessionToken, scope_eq}
use forward.Grants.Table.{
  FileIdentity, GrantOrigin, GrantTable, lookup, insert, revoke, revoke_scope, revoke_tokens,
  outside_tokens, revoke_expired, revoke_all, device_exists, revoke_missing_ttys,
}
use forward.Grants.TableLaws.{
  lookup-insert, lookup-revoke, lookup-revoke_scope, lookup-revoke_tokens, lookup-revoke_expired,
}

-- What a client can ask of the table.
pub data Operation : Type 0 where
  inserts : Scope → Text → Text → ℕ → GrantOrigin → ℕ → Operation
  revokes : Scope → Text → Operation
  revokes_scope : Scope → Operation
  revokes_tokens : List SessionToken → Operation
  revokes_expired : ℕ → Operation
  revokes_missing : (Text → Bool) → Operation
  revokes_all : Operation

unfoldable pub perform : Operation → GrantTable → GrantTable
perform (inserts scope key value created origin ttl) grants =
    insert scope key value created origin ttl grants
perform (revokes scope key) grants = revoke scope key grants
perform (revokes_scope scope) grants = revoke_scope scope grants
perform (revokes_tokens tokens) grants = revoke_tokens tokens grants
perform (revokes_expired now) grants = (revoke_expired now grants).0
perform (revokes_missing path_exists) grants = revoke_missing_ttys path_exists grants
perform revokes_all grants = revoke_all grants

unfoldable pub run : List Operation → GrantTable → GrantTable
run [] grants = grants
run (operation ∷ operations) grants = run operations (perform operation grants)

-- The answers of a table at one time.
abbrev pub Answers : Type 0
Answers = Scope → Text → Option (Text × Text × FileIdentity)

-- What an operation promises of the answers at a time: only insertion makes one, until its lifetime
-- is over; the sweep of the expired ones takes none away.
unfoldable pub promise : ℕ → Operation → Answers → Answers
promise later (inserts scope key value created origin ttl) answers scope' key' =
    if scope_eq scope scope' && text_eq key key'
    then if ltb (duration_since later created) ttl
      then some (value, origin.source, origin.identity)
      else none
    else answers scope' key'
promise later (revokes scope key) answers scope' key' =
    if scope_eq scope scope' && text_eq key key' then none else answers scope' key'
promise later (revokes_scope scope) answers scope' key' =
    if scope_eq scope scope' then none else answers scope' key'
promise later (revokes_tokens tokens) answers scope' key' =
    if outside_tokens tokens scope' then answers scope' key' else none
promise later (revokes_expired now) answers scope' key' = answers scope' key'
promise later (revokes_missing path_exists) answers scope' key' =
    if device_exists path_exists scope' then answers scope' key' else none
promise later revokes_all answers scope' key' = none

unfoldable pub promised : ℕ → List Operation → Answers → Answers
promised later [] answers = answers
promised later (operation ∷ operations) answers =
    promised later operations (promise later operation answers)

-- No sweep comes after the time that is asked about.
unfoldable pub IsBefore : ℕ → List Operation → Type 0
IsBefore later [] = Unit
IsBefore later (revokes_expired now ∷ operations) = (now ≤ later) × IsBefore later operations
IsBefore later (operation ∷ operations) = IsBefore later operations

lookup-revoke_missing :
    (path_exists : Text → Bool) (scope : Scope) (key : Text) (now : ℕ) (grants : GrantTable)
    → lookup scope key now (revoke_missing_ttys path_exists grants)
      ≡ (if device_exists path_exists scope then lookup scope key now grants else none)
unfolding lookup revoke_missing_ttys
lookup-revoke_missing path_exists scope key now [] = ground arith
lookup-revoke_missing path_exists scope key now (g ∷ grants) =
    ground (arith, lookup-revoke_missing path_exists scope key now grants)

-- One operation keeps its promise.
perform-promise :
    (later : ℕ) (operation : Operation) (grants : GrantTable) (scope : Scope) (key : Text)
    → IsBefore later (operation ∷ [])
    → lookup scope key later (perform operation grants)
      ≡ promise later operation (λ s k. lookup s k later grants) scope key
unfolding perform promise IsBefore revoke_all
perform-promise later (inserts scope' key' value created origin ttl) grants scope key h =
    lookup-insert scope' scope key' key value created later origin ttl grants
perform-promise later (revokes scope' key') grants scope key h =
    lookup-revoke scope' scope key' key later grants
perform-promise later (revokes_scope scope') grants scope key h =
    lookup-revoke_scope scope' scope key later grants
perform-promise later (revokes_tokens tokens) grants scope key h =
    lookup-revoke_tokens tokens scope key later grants
perform-promise later (revokes_expired now) grants scope key h =
    lookup-revoke_expired scope key now later grants h.0
perform-promise later (revokes_missing path_exists) grants scope key h =
    lookup-revoke_missing path_exists scope key later grants
perform-promise later revokes_all grants scope key h = lookup_empty scope key later
  where
    lookup_empty : (s : Scope) (k : Text) (now : ℕ) → lookup s k now [] ≡ none
    lookup_empty s k now = unfold lookup in refl

-- A promise speaks of the answers only.
promise_same :
    (later : ℕ) (operation : Operation) (a b : Answers)
    → ((scope : Scope) (key : Text) → a scope key ≡ b scope key)
    → (scope : Scope) (key : Text)
    → promise later operation a scope key ≡ promise later operation b scope key
unfolding promise
promise_same later (inserts scope' key' value created origin ttl) a b h scope key =
    ap
      (λ x.
        if scope_eq scope' scope && text_eq key' key
        then (if ltb (duration_since later created) ttl
            then some (value, origin.source, origin.identity)
            else none)
        else x)
      (h scope key)
promise_same later (revokes scope' key') a b h scope key =
    ap (λ x. if scope_eq scope' scope && text_eq key' key then none else x) (h scope key)
promise_same later (revokes_scope scope') a b h scope key =
    ap (λ x. if scope_eq scope' scope then none else x) (h scope key)
promise_same later (revokes_tokens tokens) a b h scope key =
    ap (λ x. if outside_tokens tokens scope then x else none) (h scope key)
promise_same later (revokes_expired now) a b h scope key = h scope key
promise_same later (revokes_missing path_exists) a b h scope key =
    ap (λ x. if device_exists path_exists scope then x else none) (h scope key)
promise_same later revokes_all a b h scope key = refl

promised_same :
    (later : ℕ) (operations : List Operation) (a b : Answers)
    → ((scope : Scope) (key : Text) → a scope key ≡ b scope key)
    → (scope : Scope) (key : Text)
    → promised later operations a scope key ≡ promised later operations b scope key
unfolding promised
promised_same later [] a b h scope key = h scope key
promised_same later (operation ∷ operations) a b h scope key =
    promised_same later operations (promise later operation a) (promise later operation b)
      (promise_same later operation a b h) scope key

head_of :
    (later : ℕ) (operation : Operation) (operations : List Operation)
    → IsBefore later (operation ∷ operations)
    → IsBefore later (operation ∷ []) × IsBefore later operations
unfolding IsBefore
head_of later (inserts scope key value created origin ttl) operations h = (tt, h)
head_of later (revokes scope key) operations h = (tt, h)
head_of later (revokes_scope scope) operations h = (tt, h)
head_of later (revokes_tokens tokens) operations h = (tt, h)
head_of later (revokes_expired now) operations h = ((h.0, tt), h.1)
head_of later (revokes_missing path_exists) operations h = (tt, h)
head_of later revokes_all operations h = (tt, h)

-- The table refines its promise: after any operations, what a lookup answers for a scope and a key, at
-- a time that no sweep among them comes after, is what the operations promise of the answers before
-- them, taken one after the other. The order and the representation of the grants play no part.
pub run-promised :
    (later : ℕ) (operations : List Operation) (grants : GrantTable) (scope : Scope) (key : Text)
    → IsBefore later operations
    → lookup scope key later (run operations grants)
      ≡ promised later operations (λ s k. lookup s k later grants) scope key
unfolding run promised
run-promised later [] grants scope key h = refl
run-promised later (operation ∷ operations) grants scope key h =
    let (first, rest) = head_of later operation operations h in
    run-promised later operations (perform operation grants) scope key rest
    ∙ promised_same later operations (λ s k. lookup s k later (perform operation grants))
        (promise later operation (λ s k. lookup s k later grants))
        (λ s k. perform-promise later operation grants s k first) scope key
