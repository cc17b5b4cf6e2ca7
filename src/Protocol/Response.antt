-- ===== src/Protocol/Response.antt =====
-- crates/secrets/src/proto/response.rs: the header line of a response. The decimal number of a
-- length is `write!`'s, an argument here.
use forward.Prelude.{
  ℕ, ◌≡◌, refl, Bool, true, ◌&&◌, ◌||◌, not, [], ◌∷◌, ◌++◌, arith, ◌==◌, if◌then◌else◌, Text, codes,
  map, all_bytes, all_bytes-append, is_digit,
}
use forward.ErrCode.{
  ErrCode, bad_request, unknown_op, version_mismatch, unknown_token, no_scope, agent_tty,
  foreign_caller, not_human_key, ambiguous_key, denied, timeout, yubikey_unreachable,
  too_many_pending, internal,
}
use forward.Protocol.Codes.{wire}

pub data Response : Type 0 where
  plain : Response
  ok_fields : Text → Response
  ok_bytes : ℕ → Response
  failed : ErrCode → Text → Response

abbrev pub sanitize_char : ℕ → ℕ
sanitize_char c = if c == 10 || c == 13 || c == 9 then 32 else c

unfoldable pub sanitize : Text → Text
sanitize = map sanitize_char

-- The line without its newline.
unfoldable pub header : (ℕ → Text) → Response → Text
header decimal plain = codes "OK"
header decimal (ok_fields fields) = codes "OK" ++ 9 ∷ sanitize fields
header decimal (ok_bytes len) = codes "OK" ++ 9 ∷ codes "len=" ++ decimal len
header decimal (failed code message) = codes "ERR" ++ 9 ∷ wire code ++ 9 ∷ sanitize message

unfoldable pub format_response : (ℕ → Text) → Response → Text
format_response decimal response = header decimal response ++ 10 ∷ []

abbrev pub is_line_byte : ℕ → Bool
is_line_byte c = not (c == 10) && not (c == 13)

line-sanitize : (text : Text) → all_bytes is_line_byte (sanitize text) ≡ true
unfolding sanitize
line-sanitize [] = refl
line-sanitize (c ∷ text) = ground (arith, line-sanitize text)

pub line-wire : (code : ErrCode) → all_bytes is_line_byte (wire code) ≡ true
unfolding wire
line-wire bad_request = refl
line-wire unknown_op = refl
line-wire version_mismatch = refl
line-wire unknown_token = refl
line-wire no_scope = refl
line-wire agent_tty = refl
line-wire foreign_caller = refl
line-wire not_human_key = refl
line-wire ambiguous_key = refl
line-wire denied = refl
line-wire timeout = refl
line-wire yubikey_unreachable = refl
line-wire too_many_pending = refl
line-wire internal = refl

line-digits : (text : Text) → all_bytes is_digit text ≡ true → all_bytes is_line_byte text ≡ true
line-digits [] h = refl
line-digits (c ∷ text) h = ground (arith, line-digits text)

line-append :
    (xs ys : Text)
    → all_bytes is_line_byte xs ≡ true
    → all_bytes is_line_byte ys ≡ true
    → all_bytes is_line_byte (xs ++ ys) ≡ true
line-append xs ys hx hy = ground (arith, all_bytes-append is_line_byte xs ys)

pub line-header :
    (decimal : ℕ → Text) (response : Response)
    → ((n : ℕ) → all_bytes is_digit (decimal n) ≡ true)
    → all_bytes is_line_byte (header decimal response) ≡ true
unfolding header
line-header decimal plain h = refl
line-header decimal (ok_fields fields) h = line-sanitize fields
line-header decimal (ok_bytes len) h = line-digits (decimal len) (h len)
line-header decimal (failed code message) h =
    line-append (wire code) (9 ∷ sanitize message) (line-wire code) (line-sanitize message)

-- A response is one line, whatever the fields or the message hold: no byte of it but the last is a
-- newline or a carriage return, given that decimal numbers hold none.
pub format_response-line :
    (decimal : ℕ → Text) (response : Response)
    → ((n : ℕ) → all_bytes is_digit (decimal n) ≡ true)
    → (line : Text) × (format_response decimal response ≡ line ++ 10 ∷ [])
      × (all_bytes is_line_byte line ≡ true)
unfolding format_response
format_response-line decimal response h =
    (header decimal response, refl, line-header decimal response h)
