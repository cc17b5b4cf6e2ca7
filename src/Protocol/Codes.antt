-- ===== src/Protocol/Codes.antt =====
-- The error codes on the wire: `ErrCode::wire` and `ErrCode::parse_wire` of crates/proto/src/lib.rs.
use forward.Prelude.{
  ◌≡◌, refl, Bool, true, false, Option, none, some, if◌then◌else◌, Text, text_eq, codes,
}
use forward.ErrCode.{
  ErrCode, bad_request, unknown_op, version_mismatch, unknown_token, no_scope, agent_tty,
  foreign_caller, not_human_key, ambiguous_key, denied, timeout, yubikey_unreachable,
  too_many_pending, internal,
}

unfoldable pub wire : ErrCode → Text
wire bad_request = codes "BAD_REQUEST"
wire unknown_op = codes "UNKNOWN_OP"
wire version_mismatch = codes "VERSION_MISMATCH"
wire unknown_token = codes "UNKNOWN_TOKEN"
wire no_scope = codes "NO_SCOPE"
wire agent_tty = codes "AGENT_TTY"
wire foreign_caller = codes "FOREIGN_CALLER"
wire not_human_key = codes "NOT_HUMAN_KEY"
wire ambiguous_key = codes "AMBIGUOUS_KEY"
wire denied = codes "DENIED"
wire timeout = codes "TIMEOUT"
wire yubikey_unreachable = codes "YUBIKEY_UNREACHABLE"
wire too_many_pending = codes "TOO_MANY_PENDING"
wire internal = codes "INTERNAL"

unfoldable pub parse_wire : Text → Option ErrCode
parse_wire token =
    if text_eq token (codes "BAD_REQUEST")
    then some bad_request
    else if text_eq token (codes "UNKNOWN_OP")
    then some unknown_op
    else if text_eq token (codes "VERSION_MISMATCH")
    then some version_mismatch
    else if text_eq token (codes "UNKNOWN_TOKEN")
    then some unknown_token
    else if text_eq token (codes "NO_SCOPE")
    then some no_scope
    else if text_eq token (codes "AGENT_TTY")
    then some agent_tty
    else if text_eq token (codes "FOREIGN_CALLER")
    then some foreign_caller
    else if text_eq token (codes "NOT_HUMAN_KEY")
    then some not_human_key
    else if text_eq token (codes "AMBIGUOUS_KEY")
    then some ambiguous_key
    else if text_eq token (codes "DENIED")
    then some denied
    else if text_eq token (codes "TIMEOUT")
    then some timeout
    else if text_eq token (codes "YUBIKEY_UNREACHABLE")
    then some yubikey_unreachable
    else if text_eq token (codes "TOO_MANY_PENDING")
    then some too_many_pending
    else if text_eq token (codes "INTERNAL")
    then some internal
    else none

-- Every code is read back from its wire token.
pub parse_wire-wire : (code : ErrCode) → parse_wire (wire code) ≡ some code
unfolding parse_wire wire forward.Prelude.Text-discrete
parse_wire-wire bad_request = refl
parse_wire-wire unknown_op = refl
parse_wire-wire version_mismatch = refl
parse_wire-wire unknown_token = refl
parse_wire-wire no_scope = refl
parse_wire-wire agent_tty = refl
parse_wire-wire foreign_caller = refl
parse_wire-wire not_human_key = refl
parse_wire-wire ambiguous_key = refl
parse_wire-wire denied = refl
parse_wire-wire timeout = refl
parse_wire-wire yubikey_unreachable = refl
parse_wire-wire too_many_pending = refl
parse_wire-wire internal = refl
