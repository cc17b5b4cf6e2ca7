-- ===== src/Opener/Lines.antt =====
-- The lines that the link opener reads: the bearer of crates/forward/src/browser/token.rs, the arming
-- request of bridge/arm_request.rs and the hold of request.rs. A stream is what its reads find, each
-- with the time at which the deadline is looked at before it; after the last comes the end of the
-- file. A text that splits at spaces is taken as UTF-8 where `is_utf8` says so.
use forward.Prelude.{
  ℕ, suc, ◌+◌, ◌-◌, ◌≤◌, ◌<◌, ◌≡◌, refl, sym, ap, ◌∙◌, Bool, true, false, not, Option, none, some,
  List, [], ◌∷◌, ◌++◌, arith, leb, ltb, Bool-cases, length-append, inl, inr, ◌==◌, if◌then◌else◌,
  Text, text_eq, codes, length, all_bytes, is_digit, split_once, append_assoc, u64_max,
}
use forward.Protocol.Numbers.{parse_unsigned}
use forward.Opener.Url.{split_on}
use forward.Opener.Policy.{u16_max}

pub data LineRead : Type 0 where
  byte : ℕ → ℕ → LineRead
  interrupted : ℕ → LineRead
  failed : ℕ → LineRead

abbrev pub max_request_line : ℕ
max_request_line = 128

-- `RELAY ` and what of it a position expects.
abbrev pub relay_prefix : Text
relay_prefix = codes "RELAY "

unfoldable pub expected_at : Text → ℕ → Option ℕ
expected_at [] n = none
expected_at (c ∷ s) n = if n == 0 then some c else expected_at s (n - 1)

-- One byte at a position: of the prefix, the newline, or of the token.
unfoldable pub take_byte : Option ℕ → ℕ → Text → Option Text → Option Text → Option Text
take_byte (some expected) received token on more = if received == expected then on else none
take_byte none received token on more = if received == 10 then some token else more

-- The loop of `read_relay_token`; a read that a signal interrupts takes up a position too.
unfoldable pub read_token : ℕ → ℕ → Text → List LineRead → Option Text
read_token deadline position token [] = none
read_token deadline position token (byte now c ∷ reads) =
    let on = read_token deadline (suc position) token reads in
    let more = read_token deadline (suc position) (token ++ c ∷ []) reads in
    if leb max_request_line position
    then none
    else if leb deadline now
    then none
    else take_byte (expected_at relay_prefix position) c token on more
read_token deadline position token (interrupted now ∷ reads) =
    let on = read_token deadline (suc position) token reads in
    if leb max_request_line position then none else if leb deadline now then none else on
read_token deadline position token (failed now ∷ reads) = none

unfoldable pub read_relay_token : ℕ → List LineRead → Option Text
read_relay_token deadline reads = read_token deadline 0 [] reads

-- `number`: decimal digits only.
unfoldable pub number : ℕ → Text → Option ℕ
number max [] = none
number max (c ∷ s) = if all_bytes is_digit (c ∷ s) then parse_unsigned max (c ∷ s) else none

pub data ArmRequest : Type 0 where
  arm : ℕ → ℕ → ArmRequest
  hold : ℕ → ArmRequest

abbrev arm_of : Option ℕ → Option ℕ → Option ArmRequest
arm_of none ttl = none
arm_of (some port) none = none
arm_of (some port) (some ttl) = some (arm port ttl)

abbrev hold_of : Option ℕ → Option ArmRequest
hold_of none = none
hold_of (some port) = some (hold port)

unfoldable pub parse_words : List Text → Option ArmRequest
parse_words [] = none
parse_words (verb ∷ []) = none
parse_words (verb ∷ port ∷ []) =
    if text_eq verb (codes "HOLD") then hold_of (number u16_max port) else none
parse_words (verb ∷ port ∷ ttl ∷ []) =
    if text_eq verb (codes "ARM") then arm_of (number u16_max port) (number u64_max ttl) else none
parse_words (verb ∷ port ∷ ttl ∷ more ∷ words) = none

-- `parse_request` of bridge/arm_request.rs
unfoldable pub parse_arm_request : (Text → Bool) → Text → Option ArmRequest
parse_arm_request is_utf8 line = if is_utf8 line then parse_words (split_on 32 line) else none

-- A hold on the URL channel: a port and seconds.
unfoldable pub hold_fields : Option (Text × Text) → Option (ℕ × ℕ)
hold_fields none = none
hold_fields (some (port, secs)) = elim (number u16_max port) [
  | none ↦ none
  | some p ↦ elim (number u64_max secs) [ none ↦ none | some s ↦ some (p, s) ]
]

unfoldable pub parse_hold : Text → Option (ℕ × ℕ)
parse_hold fields = hold_fields (split_once 32 fields)

-- What a client sends without a pause: all of it before the deadline.
abbrev pub sent_at : ℕ → Text → List LineRead
sent_at now [] = []
sent_at now (c ∷ s) = byte now c ∷ sent_at now s

no_more : (s : Text) → s ++ [] ≡ s
no_more [] = refl
no_more (c ∷ s) = ap (λ t. c ∷ t) (no_more s)

past_end : (s : Text) (n : ℕ) → length s ≤ n → expected_at s n ≡ none
unfolding expected_at
past_end [] n h = refl
past_end (c ∷ s) n h =
    let later : (n == 0) ≡ false = ground arith in rw later (past_end s (n - 1) (omega (arith, h)))

token_read :
    (deadline now position : ℕ) (token more rest : Text)
    → now < deadline
    → 6 ≤ position
    → position + length more < max_request_line
    → all_bytes (λ c. not (c == 10)) more ≡ true
    → read_token deadline position token (sent_at now (more ++ 10 ∷ rest)) ≡ some (token ++ more)
unfolding read_token take_byte
token_read deadline now position token [] rest early behind fits clean =
    let short : leb max_request_line position ≡ false = ground arith in
    let timely : leb deadline now ≡ false = ground arith in
    rw (short, timely, past_end relay_prefix position behind) (ap some (sym (no_more token)))
token_read deadline now position token (c ∷ more) rest early behind fits clean =
    let short : leb max_request_line position ≡ false = ground arith in
    let timely : leb deadline now ≡ false = ground arith in
    let other : (c == 10) ≡ false = ground arith in
    let further =
      token_read deadline now (suc position) (token ++ c ∷ []) more rest early
        (omega (arith, behind)) (omega (arith, fits)) (ground arith) in
    rw (short, timely, past_end relay_prefix position behind, other)
      (further ∙ ap some (append_assoc token (c ∷ []) more))

-- A bearer line is read as its token, whatever follows it: a token without a newline, which fits a
-- request line with the prefix and the newline, sent before the deadline with no signal between.
pub read_relay_token-sent :
    (deadline now : ℕ) (token rest : Text)
    → now < deadline
    → length token + 7 ≤ max_request_line
    → all_bytes (λ c. not (c == 10)) token ≡ true
    → read_relay_token deadline (sent_at now (relay_prefix ++ (token ++ 10 ∷ rest))) ≡ some token
unfolding read_relay_token read_token take_byte expected_at
read_relay_token-sent deadline now token rest early fits clean =
    let timely : leb deadline now ≡ false = ground arith in
    rw timely
      (token_read deadline now 6 [] token rest early (omega arith) (omega (arith, fits)) clean)

token_cut :
    (deadline now position : ℕ) (token more rest : Text)
    → now < deadline
    → 6 ≤ position
    → max_request_line ≤ position + length more
    → all_bytes (λ c. not (c == 10)) more ≡ true
    → read_token deadline position token (sent_at now (more ++ 10 ∷ rest)) ≡ none
unfolding read_token take_byte
token_cut deadline now position token [] rest early behind long clean =
    let full : leb max_request_line position ≡ true = ground arith in rw full refl
token_cut deadline now position token (c ∷ more) rest early behind long clean =
    let timely : leb deadline now ≡ false = ground arith in
    let other : (c == 10) ≡ false = ground arith in
    let further =
      token_cut deadline now (suc position) (token ++ c ∷ []) more rest early
        (omega (arith, behind)) (omega (arith, long)) (ground arith) in
    elim (Bool-cases (leb max_request_line position)) [
      | inl full ↦ rw full refl
      | inr short ↦ rw (short, timely, past_end relay_prefix position behind, other) further
    ]

-- A signal just before the space that ends the prefix shifts the comparison: a bearer line sent
-- before the deadline, whose token has no newline, is then read as a token that begins with the
-- space, where the line with its newline is shorter than `MAX_REQUEST_LINE`; any other is
-- refused, for the signal uses up a position.
pub read_relay_token-interrupted :
    (deadline now : ℕ) (token rest : Text)
    → now < deadline
    → all_bytes (λ c. not (c == 10)) token ≡ true
    → read_relay_token deadline (
        byte now 82
        ∷ byte now 69
        ∷ byte now 76
        ∷ byte now 65
        ∷ byte now 89
        ∷ interrupted now
        ∷ sent_at now (32 ∷ (token ++ 10 ∷ rest)))
      ≡ (if ltb (length (relay_prefix ++ (token ++ 10 ∷ []))) max_request_line
          then some (32 ∷ token)
          else none)
unfolding read_relay_token read_token take_byte expected_at
read_relay_token-interrupted deadline now token rest early clean =
    let timely : leb deadline now ≡ false = ground arith in
    let size : length (relay_prefix ++ (token ++ 10 ∷ [])) ≡ length token + 7 =
      omega (arith, length-append token (10 ∷ [])) in
    rw (timely, size)
      (elim (Bool-cases (ltb (length token + 7) max_request_line)) [
        | inl fits ↦ rw fits (
            token_read deadline now 7 (32 ∷ []) token rest early (omega arith) (ground arith) clean)
        | inr long ↦
            rw long (
              token_cut deadline now 7 (32 ∷ []) token rest early (omega arith) (ground arith)
                clean)
      ])
