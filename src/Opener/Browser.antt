-- ===== src/Opener/Browser.antt =====
-- The registry of the browser grants: crates/forward/src/browser/grant.rs, grant/lifetime.rs and
-- grant/pipes.rs. A control channel, and a pipe with its two sockets, are numbers; those that were
-- shut down are kept beside the registry. That a descriptor can be duplicated is what the system
-- answers, an argument; the overwriting of tokens is left out.
pub mod Severed
use forward.Prelude.{
  ℕ, ◌+◌, ◌-◌, ◌%◌, ◌^◌, Bool, true, false, not, ◌&&◌, ◌||◌, Option, none, some, List, [], ◌∷◌,
  ◌++◌, map, ltb, leb, ◌==◌, if◌then◌else◌, Text, text_eq, find, any, retain, update_first, second,
  ◌/◌,
}

pub record SocketIdentity : Type 0 where
  pub device : ℕ
  pub inode : ℕ

pub record BrokerIdentity : Type 0 where
  pub instance_id : Text
  pub epoch : ℕ
  pub socket : SocketIdentity

abbrev pub identity_eq : BrokerIdentity → BrokerIdentity → Bool
identity_eq a b =
    text_eq a.instance_id b.instance_id
    && a.epoch == b.epoch
    && a.socket.device == b.socket.device
    && a.socket.inode == b.socket.inode

pub record ProcessAnchor : Type 0 where
  pub pid : ℕ
  pub start : ℕ

pub record Grant : Type 0 where
  pub session_id : Text
  pub anchor : ProcessAnchor
  pub token : Text
  pub deadline : ℕ
  pub endpoint_port : ℕ

pub record GrantEntry : Type 0 where
  pub id : ℕ
  pub grant : Grant
  pub control : ℕ

-- The pipes of a grant, by their ids.
pub record PipeRow : Type 0 where
  pub grant_id : ℕ
  pub handles : List ℕ

pub record Grants : Type 0 where
  pub grants : List GrantEntry
  pub pipes : List PipeRow
  pub authority : Option BrokerIdentity
  pub next_id : ℕ
  pub severed : List ℕ
  pub ended : List ℕ

-- `Grants::new`
abbrev pub empty : Grants
empty = record { grants = []; pipes = []; authority = none; next_id = 0; severed = []; ended = [] }

abbrev pub is_grant : ℕ → GrantEntry → Bool
is_grant id e = e.id == id

abbrev pub is_row : ℕ → PipeRow → Bool
is_row id row = row.grant_id == id

-- `fetch_add(1)` on 64 bits
abbrev pub next : ℕ → ℕ
next id = (id + 1) % 2 ^ 64

unfoldable pub insert : Bool → Grant → ℕ → Grants → Grants × Option ℕ
insert cloned grant control g =
    if cloned
    then (
      record g {
        next_id = next g.next_id;
        grants =
            record { id = g.next_id; grant = grant; control = control }
            ∷ retain (λ e. not (is_grant g.next_id e)) g.grants;
      },
      some g.next_id,
    )
    else (g, none)

abbrev pub is_authority : Option BrokerIdentity → BrokerIdentity → Bool
is_authority none authority = false
is_authority (some seen) authority = identity_eq seen authority

unfoldable pub insert_if_authority : Bool → BrokerIdentity → Grant → ℕ → Grants → Grants × Option ℕ
insert_if_authority cloned authority grant control g =
    if is_authority g.authority authority then insert cloned grant control g else (g, none)

abbrev pub all_handles : List PipeRow → List ℕ
all_handles [] = []
all_handles (row ∷ rows) = row.handles ++ all_handles rows

abbrev pub control_of : GrantEntry → ℕ
control_of e = e.control

unfoldable pub revoke_all : Grants → Grants
revoke_all g = record g {
  grants = [];
  pipes = [];
  severed = all_handles g.pipes ++ g.severed;
  ended = map control_of g.grants ++ g.ended;
}

abbrev pub is_changed : Option BrokerIdentity → BrokerIdentity → Bool
is_changed none authority = false
is_changed (some seen) authority = not (identity_eq seen authority)

unfoldable pub observe_authority : BrokerIdentity → Grants → Grants × Bool
observe_authority authority g =
    let seen = record g { authority = some authority } in
    let changed = is_changed g.authority authority in
    (if changed then revoke_all seen else seen, changed)

unfoldable pub invalidate_authority : Grants → Grants
invalidate_authority g = revoke_all (record g { authority = none })

abbrev pub row_handles : Option PipeRow → List ℕ
row_handles none = []
row_handles (some row) = row.handles

abbrev pub entry_control : Option GrantEntry → List ℕ
entry_control none = []
entry_control (some e) = e.control ∷ []

unfoldable pub expire : ℕ → Grants → Grants
expire id g = record g {
  grants = retain (λ e. not (is_grant id e)) g.grants;
  pipes = retain (λ row. not (is_row id row)) g.pipes;
  severed = row_handles (find (is_row id) g.pipes) ++ g.severed;
  ended = entry_control (find (is_grant id) g.grants) ++ g.ended;
}

unfoldable pub live_entry : ℕ → ℕ → Option GrantEntry → Grants → Grants × Option Grant
live_entry id now none g = (g, none)
live_entry id now (some e) g =
    if ltb now e.grant.deadline then (g, some e.grant) else (expire id g, none)

unfoldable pub live : ℕ → ℕ → Grants → Grants × Option Grant
live id now g = live_entry id now (find (is_grant id) g.grants) g

abbrev pub is_unexpired : ℕ → GrantEntry → Bool
is_unexpired now e = ltb now e.grant.deadline

-- The whole seconds that are left, at least one.
abbrev pub seconds_left : ℕ → GrantEntry → ℕ
seconds_left now e = let secs = (e.grant.deadline - now) / second in if secs == 0 then 1 else secs

unfoldable pub snapshot_live : ℕ → Grants → List (Text × ℕ)
snapshot_live now g =
    map (λ e. (e.grant.token, seconds_left now e)) (retain (is_unexpired now) g.grants)

abbrev pub port_and_grant : Option GrantEntry → Option (ℕ × Grant)
port_and_grant none = none
port_and_grant (some e) = some (e.grant.endpoint_port, e.grant)

-- `is_running`: whether the caller's process is the one that started then; `contains`: whether an
-- anchor's process tree holds a process.
unfoldable pub live_for_descendant :
    (ProcessAnchor → Bool)
    → (ProcessAnchor → ℕ → Bool)
    → ProcessAnchor
    → ℕ
    → Grants
    → Option (ℕ × Grant)
live_for_descendant is_running contains caller now g =
    if is_running caller
    then port_and_grant
        (find (λ e. is_unexpired now e && contains e.grant.anchor caller.pid) g.grants)
    else none

abbrev pub push_handle : ℕ → PipeRow → PipeRow
push_handle pipe row = record row { handles = row.handles ++ pipe ∷ [] }

abbrev pub push_row : ℕ → ℕ → List PipeRow → List PipeRow
push_row id pipe rows =
    if any (is_row id) rows
    then update_first (is_row id) (push_handle pipe) rows
    else record { grant_id = id; handles = pipe ∷ [] } ∷ rows

-- Whether a pipe is let in: the id of the pipe, or that the grant is gone or a socket is not
-- duplicated.
unfoldable pub register_pipe : Bool → ℕ → Grants → Grants × Option ℕ
register_pipe cloned id g =
    if any (is_grant id) g.grants && cloned
    then (
      record g { next_id = next g.next_id; pipes = push_row id g.next_id g.pipes },
      some g.next_id,
    )
    else (g, none)

abbrev pub forget : ℕ → PipeRow → PipeRow
forget pipe row = record row { handles = retain (λ h. not (h == pipe)) row.handles }

-- The drop of a `PipeGuard`.
unfoldable pub drop_guard : ℕ → ℕ → Grants → Grants
drop_guard id pipe g = record g { pipes = update_first (is_row id) (forget pipe) g.pipes }
