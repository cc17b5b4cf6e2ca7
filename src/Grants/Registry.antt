-- ===== src/Grants/Registry.antt =====
-- crates/secrets/src/grants/registry.rs: the sessions and their tokens, and how a request gets its
-- scope.
use forward.Prelude.{
  Bool, false, not, ◌&&◌, Option, none, some, List, [], ◌∷◌, ◌++◌, if◌then◌else◌, find, any, retain,
  Text, text_eq,
}
use forward.ErrCode.{
  Result, ok, err, bad_request, unknown_token, no_scope, agent_tty, foreign_caller,
}
use forward.Containment.{Kernel, PinnedPeer, descends_from}
use forward.Grants.Scope.{Scope, session, tty, SessionToken, token_eq}

pub record Registration : Type 0 where
  pub token : SessionToken
  pub session_id : Text
  pub root : PinnedPeer

pub record Registry : Type 0 where
  pub sessions : List Registration
  pub agent_ttys : List Text
  pub boot_id : Text

unfoldable pub new : Text → Registry
new boot_id = record { sessions = []; agent_ttys = []; boot_id = boot_id }

abbrev pub has_token : SessionToken → Registration → Bool
has_token token entry = token_eq entry.token token

abbrev pub has_session : Text → Registration → Bool
has_session id entry = text_eq entry.session_id id

-- `iter().filter(session).map(token).collect()`
abbrev pub tokens_of : Text → List Registration → List SessionToken
tokens_of id [] = []
tokens_of id (entry ∷ rest) =
    let tokens = tokens_of id rest in if has_session id entry then entry.token ∷ tokens else tokens

-- The registry, and the displaced tokens or the error.
unfoldable pub register : Registration → Registry → Registry × Result (List SessionToken)
register new_entry r =
    if any (has_token new_entry.token) r.sessions
    then (
      r,
      (if any (λ e. has_token new_entry.token e && has_session new_entry.session_id e) r.sessions
          then ok []
          else err bad_request),
    )
    else (
      record r {
        sessions =
            retain (λ e. not (has_session new_entry.session_id e)) r.sessions ++ new_entry ∷ [];
      },
      ok (tokens_of new_entry.session_id r.sessions),
    )

unfoldable pub unregister : Text → Registry → Registry × List SessionToken
unregister id r = (
  record r { sessions = retain (λ e. not (has_session id e)) r.sessions },
  tokens_of id r.sessions,
)

unfoldable pub registration : SessionToken → Registry → Option Registration
registration token r = find (has_token token) r.sessions

unfoldable pub is_agent_tty : Text → Registry → Bool
is_agent_tty path r = any (λ known. text_eq known path) r.agent_ttys

-- The terminal of a request that came with a token is remembered.
learn_tty : Option Text → Registry → Registry
unfolding is_agent_tty
learn_tty none r = r
learn_tty (some path) r =
    if is_agent_tty path r then r else record r { agent_ttys = r.agent_ttys ++ path ∷ [] }

caller_descends : Kernel → Option PinnedPeer → PinnedPeer → Bool
caller_descends k none root = false
caller_descends k (some caller) root = descends_from k caller root

resolve_session :
    Kernel
    → SessionToken
    → Option Text
    → Option PinnedPeer
    → Option Registration
    → Registry
    → Registry × Result Scope
unfolding learn_tty caller_descends
resolve_session k presented path caller none r = (r, err unknown_token)
resolve_session k presented path caller (some entry) r =
    if caller_descends k caller entry.root
    then (learn_tty path r, ok (session presented))
    else (r, err foreign_caller)

unfoldable pub resolve :
    Kernel
    → Option SessionToken
    → Option Text
    → Option PinnedPeer
    → Registry
    → Registry × Result Scope
unfolding resolve_session is_agent_tty
resolve k (some presented) path caller r =
    resolve_session k presented path caller (find (has_token presented) r.sessions) r
resolve k none (some path) caller r =
    if is_agent_tty path r then (r, err agent_tty) else (r, ok (tty path r.boot_id))
resolve k none none caller r = (r, err no_scope)
