-- ===== src/Grants/RegistryLaws.antt =====
-- What the registry promises: one session for a token, one token for a session, pinned roots, and
-- when a request has a scope.
use forward.Prelude.{
  ◌≡◌, refl, Bool, true, false, not, inl, inr, ◌↔◌, Option, none, some, List, [], ◌∷◌, ◌++◌, arith,
  if◌then◌else◌, find, any, retain, Text, text_eq, Bool-cases,
}
use forward.ErrCode.{ok, err, agent_tty}
use forward.Containment.{Kernel, PinnedPeer, descends_from}
use forward.Grants.Scope.{Scope, session, SessionToken, token_eq}
use forward.Grants.Registry.{
  Registration, Registry, has_token, has_session, tokens_of, register, unregister, registration,
  resolve,
}

-- No two entries share a token or a session.
abbrev pub AreDistinct : List Registration → Type 0
AreDistinct [] = Unit
AreDistinct (e ∷ rest) =
    (any (has_token e.token) rest ≡ false)
    × (any (has_session e.session_id) rest ≡ false)
    × AreDistinct rest

any-retain_of_any :
    (p q : Registration → Bool) (es : List Registration)
    → any p es ≡ false
    → any p (retain q es) ≡ false
any-retain_of_any p q [] h = refl
any-retain_of_any p q (e ∷ es) h = ground (arith, any-retain_of_any p q es)

retain-AreDistinct :
    (q : Registration → Bool) (es : List Registration) → AreDistinct es → AreDistinct (retain q es)
retain-AreDistinct q [] h = tt
retain-AreDistinct q (e ∷ es) h =
    keep (q e) (any-retain_of_any (has_token e.token) q es h.0)
      (any-retain_of_any (has_session e.session_id) q es h.1) (retain-AreDistinct q es h.2)
  where
    keep :
        (b : Bool)
        → any (has_token e.token) (retain q es) ≡ false
        → any (has_session e.session_id) (retain q es) ≡ false
        → AreDistinct (retain q es)
        → AreDistinct (if b then e ∷ retain q es else retain q es)
    keep true t s rest = (t, s, rest)
    keep false t s rest = rest

any-one_more :
    (p : Registration → Bool) (x : Registration) (es : List Registration)
    → any p es ≡ false
    → p x ≡ false
    → any p (es ++ x ∷ []) ≡ false
any-one_more p x [] h e = ground arith
any-one_more p x (y ∷ es) h e = ground (arith, any-one_more p x es)

append-AreDistinct :
    (x : Registration) (es : List Registration)
    → any (has_token x.token) es ≡ false
    → any (has_session x.session_id) es ≡ false
    → AreDistinct es
    → AreDistinct (es ++ x ∷ [])
append-AreDistinct x [] t s h = (refl, refl, tt)
append-AreDistinct x (e ∷ es) t s h = (
  any-one_more (has_token e.token) x es h.0 (ground arith),
  any-one_more (has_session e.session_id) x es h.1 (ground arith),
  append-AreDistinct x es (ground arith) (ground arith) h.2,
)

no_session_left :
    (id : Text) (es : List Registration)
    → any (has_session id) (retain (λ e. not (has_session id e)) es) ≡ false
no_session_left id [] = refl
no_session_left id (e ∷ es) = ground (arith, no_session_left id es)

-- Registration keeps tokens and sessions distinct, whether it succeeds or is refused.
pub register-AreDistinct :
    (x : Registration) (r : Registry)
    → AreDistinct r.sessions
    → AreDistinct (register x r).0.sessions
unfolding register
register-AreDistinct x r h = elim (Bool-cases (any (has_token x.token) r.sessions)) [
  | inl known ↦ rw known h
  | inr fresh ↦ rw fresh (
      append-AreDistinct x (retain (λ e. not (has_session x.session_id e)) r.sessions)
        (any-retain_of_any (has_token x.token) (λ e. not (has_session x.session_id e)) r.sessions
          fresh)
        (no_session_left x.session_id r.sessions)
        (retain-AreDistinct (λ e. not (has_session x.session_id e)) r.sessions h))
]

pub unregister-AreDistinct :
    (id : Text) (r : Registry) → AreDistinct r.sessions → AreDistinct (unregister id r).0.sessions
unfolding unregister
unregister-AreDistinct id r h = retain-AreDistinct (λ e. not (has_session id e)) r.sessions h

any-token_of_any :
    (t : SessionToken) (id : Text) (es : List Registration)
    → any (has_token t) es ≡ false
    → any (λ d. token_eq d t) (tokens_of id es) ≡ false
any-token_of_any t id [] h = refl
any-token_of_any t id (e ∷ es) h = ground (arith, any-token_of_any t id es)

find_of_any-false :
    (p : Registration → Bool) (es : List Registration) → any p es ≡ false → find p es ≡ none
find_of_any-false p [] h = refl
find_of_any-false p (e ∷ es) h = ground (arith, find_of_any-false p es)

-- Among distinct tokens, forgetting a session forgets exactly its tokens.
pub find-forget :
    (t : SessionToken) (id : Text) (es : List Registration)
    → AreDistinct es
    → find (has_token t) (retain (λ e. not (has_session id e)) es)
      ≡ (if any (λ d. token_eq d t) (tokens_of id es) then none else find (has_token t) es)
find-forget t id [] h = refl
find-forget t id (e ∷ es) h = elim (Bool-cases (any (has_token t) es)) [
  | inl more ↦ ground (arith, find-forget t id es h.2, h.0)
  | inr gone ↦ ground (
    arith,
    find-forget t id es h.2,
    any-token_of_any t id es gone,
    find_of_any-false (has_token t) es gone,
  )
]

find-append_one :
    (t : SessionToken) (x : Registration) (es : List Registration)
    → any (has_token x.token) es ≡ false
    → find (has_token t) (es ++ x ∷ [])
      ≡ (if token_eq x.token t then some x else find (has_token t) es)
find-append_one t x [] h = ground arith
find-append_one t x (e ∷ es) h = ground (arith, find-append_one t x es)

-- Where tokens and sessions are distinct, which registration a token finds after REGISTER. A token that was already bound changes nothing,
-- its pinned root included; a new one is bound to the new entry, the tokens that its session held
-- before are forgotten, and every other token keeps its registration.
pub registration-register :
    (x : Registration) (t : SessionToken) (r : Registry)
    → AreDistinct r.sessions
    → registration t (register x r).0 ≡ (
        if any (has_token x.token) r.sessions
        then registration t r
        else if token_eq x.token t
        then some x
        else if any (λ d. token_eq d t) (tokens_of x.session_id r.sessions)
        then none
        else registration t r)
unfolding registration register
registration-register x t r h = elim (Bool-cases (any (has_token x.token) r.sessions)) [
  | inl known ↦ rw known
  | inr fresh ↦ rw fresh (
      rw
        (find-append_one t x (retain (λ e. not (has_session x.session_id e)) r.sessions) (
          any-retain_of_any (has_token x.token) (λ e. not (has_session x.session_id e)) r.sessions
            fresh))
        (rw (find-forget t x.session_id r.sessions h)))
]

-- Where tokens and sessions are distinct, which registration a token finds after UNREGISTER: none, if
-- it was the session's, and else the one it had.
pub registration-unregister :
    (id : Text) (t : SessionToken) (r : Registry)
    → AreDistinct r.sessions
    → registration t (unregister id r).0
      ≡ (if any (λ d. token_eq d t) (unregister id r).1 then none else registration t r)
unfolding registration unregister
registration-unregister id t r h = find-forget t id r.sessions h

-- A request that presents a token gets a scope exactly when the token is registered and the kernel
-- places the caller in the process tree of the session's pinned root; the scope is that session.
pub resolve-session_iff :
    (k : Kernel) (t : SessionToken) (path : Option Text) (caller : Option PinnedPeer) (r : Registry)
    (s : Scope)
    → ((resolve k (some t) path caller r).1 ≡ ok s) ↔ (
        (entry : Registration) × (c : PinnedPeer) × (registration t r ≡ some entry)
        × (caller ≡ some c)
        × (descends_from k c entry.root ≡ true)
        × (s ≡ session t))
unfolding resolve registration
resolve-session_iff k t path caller r s =
    (λ h. ground arith, λ w. ground (arith, w.2, w.3, w.4, w.5))

knows_last :
    (path : Text) (l : List Text) → any (λ known. text_eq known path) (l ++ path ∷ []) ≡ true
knows_last path [] = ground arith
knows_last path (x ∷ l) = ground (arith, knows_last path l)

-- Right after a request with a token was admitted from a terminal, a request without one from that
-- terminal is refused, whoever makes it.
pub agent_tty_refused :
    (k k' : Kernel) (t : SessionToken) (path : Text) (caller caller' : Option PinnedPeer)
    (r : Registry) (s : Scope)
    → (resolve k (some t) (some path) caller r).1 ≡ ok s
    → (resolve k' none (some path) caller' (resolve k (some t) (some path) caller r).0).1
      ≡ err agent_tty
unfolding resolve
agent_tty_refused k k' t path caller caller' r s h = ground (arith, knows_last path r.agent_ttys)
