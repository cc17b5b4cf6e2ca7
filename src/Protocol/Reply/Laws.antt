-- ===== src/Protocol/Reply/Laws.antt =====
-- What `parse_response` of crates/proto/src/response.rs accepts, and that it reads what
-- crates/secrets/src/proto/response.rs writes.
use forward.Prelude.{
  ℕ, ◌≤◌, ◌≡◌, refl, sym, ap, ◌∙◌, Bool, true, false, ◌&&◌, ◌||◌, not, Option, none, some, [], ◌∷◌,
  ◌++◌, map, arith, ltb, leb, ◌==◌, if◌then◌else◌, Text, text_eq, codes, length, all_bytes,
  all_bytes-append, all_bytes_mono, is_digit, is_graphic, strip_prefix, split_once,
  split_once-append, u64_max, Bool-cases, Option-cases, inl, inr,
}
use forward.ErrCode.{
  ErrCode, bad_request, unknown_op, version_mismatch, unknown_token, no_scope, agent_tty,
  foreign_caller, not_human_key, ambiguous_key, denied, timeout, yubikey_unreachable,
  too_many_pending, internal,
}
use forward.Protocol.Codes.{wire, parse_wire-wire}
use forward.Protocol.Numbers.{parse_unsigned}
use forward.Protocol.Request.{max_frame_bytes}
use forward.Protocol.Response.{
  Response, plain, ok_fields, ok_bytes, failed, sanitize, header, format_response, is_line_byte,
  line-header,
}
use forward.Protocol.Reply.{
  BrokerResponse, done, fields, bytes, ClientResult, received, failure, broker, and_then,
  is_header_byte, plain_header, fields_header, bytes_header, error_header, parse_header, known_code,
  parse_error, error_line, fields_line, length_line, parse_length, parsed_length, contains_nul,
  payload_from_slice, if_empty, finish_header, answer_whole, parse_split, parse_response,
}
use forward.Protocol.Reply.Sent.{step_back}

-- From the space to `~`.
abbrev pub is_printable : ℕ → Bool
is_printable c = leb 32 c && leb c 126

-- When a client can read a response that is followed by a payload: a field text does not begin like
-- a length, the payload has the length that is announced, at most a frame's, and no NUL, and the
-- decimal text of that length is one that a number is read from.
unfoldable pub IsReadable : (ℕ → Text) → Response → Text → Type 0
IsReadable decimal plain payload = payload ≡ []
IsReadable decimal (ok_fields values) payload =
    (payload ≡ [])
    × (all_bytes is_printable values ≡ true)
    × (strip_prefix (codes "len=") values ≡ none)
IsReadable decimal (ok_bytes n) payload =
    (length payload ≡ n)
    × (n ≤ max_frame_bytes)
    × (contains_nul payload ≡ false)
    × (parse_unsigned u64_max (decimal n) ≡ some n)
IsReadable decimal (failed code message) payload =
    (payload ≡ []) × (all_bytes is_printable message ≡ true)

-- What the client then gets.
unfoldable pub meant : Response → Text → ClientResult BrokerResponse
meant plain payload = received done
meant (ok_fields values) payload = received (fields values)
meant (ok_bytes n) payload = received (bytes payload)
meant (failed code message) payload = failure (broker code)

sanitize-printable : (text : Text) → all_bytes is_printable text ≡ true → sanitize text ≡ text
unfolding sanitize
sanitize-printable [] h = refl
sanitize-printable (c ∷ text) h = ground (arith, sanitize-printable text)

printable-header :
    (text : Text) → all_bytes is_printable text ≡ true → all_bytes is_header_byte text ≡ true
printable-header text h = all_bytes_mono is_printable is_header_byte text (λ c k. ground arith) h

digits-header :
    (text : Text) → all_bytes is_digit text ≡ true → all_bytes is_header_byte text ≡ true
digits-header text h = all_bytes_mono is_digit is_header_byte text (λ c k. ground arith) h

abbrev no_tab : ℕ → Bool
no_tab c = if c == 9 then false else true

wire_is_clean :
    (code : ErrCode)
    → (all_bytes is_header_byte (wire code) ≡ true) × (all_bytes no_tab (wire code) ≡ true)
unfolding wire
wire_is_clean bad_request = (refl, refl)
wire_is_clean unknown_op = (refl, refl)
wire_is_clean version_mismatch = (refl, refl)
wire_is_clean unknown_token = (refl, refl)
wire_is_clean no_scope = (refl, refl)
wire_is_clean agent_tty = (refl, refl)
wire_is_clean foreign_caller = (refl, refl)
wire_is_clean not_human_key = (refl, refl)
wire_is_clean ambiguous_key = (refl, refl)
wire_is_clean denied = (refl, refl)
wire_is_clean timeout = (refl, refl)
wire_is_clean yubikey_unreachable = (refl, refl)
wire_is_clean too_many_pending = (refl, refl)
wire_is_clean internal = (refl, refl)

parse_header-fields :
    (values : Text)
    → all_bytes is_printable values ≡ true
    → strip_prefix (codes "len=") values ≡ none
    → parse_header (codes "OK" ++ 9 ∷ values) ≡ received (fields_header values)
unfolding parse_header length_line fields_line forward.Prelude.Text-discrete
parse_header-fields values h other = rw (printable-header values h, other) refl

parse_header-failed :
    (code : ErrCode) (message : Text)
    → all_bytes is_printable message ≡ true
    → parse_header (codes "ERR" ++ 9 ∷ wire code ++ 9 ∷ message) ≡ received (error_header code)
unfolding parse_header length_line fields_line error_line parse_error known_code
    forward.Prelude.Text-discrete
parse_header-failed code message h =
    let (clean, tabless) = wire_is_clean code in
    rw
      (
        all_bytes-append is_header_byte (wire code) (9 ∷ message),
        clean,
        printable-header message h,
        split_once-append 9 (wire code) message tabless,
        parse_wire-wire code,
      )
      refl

parse_header-bytes :
    (text : Text) (n : ℕ)
    → all_bytes is_digit text ≡ true
    → parse_unsigned u64_max text ≡ some n
    → n ≤ max_frame_bytes
    → parse_header (codes "OK" ++ 9 ∷ codes "len=" ++ text) ≡ received (bytes_header n)
unfolding parse_header length_line parse_length parsed_length parse_unsigned
    forward.Prelude.Text-discrete
parse_header-bytes [] n h number fits = cc
parse_header-bytes (c ∷ s) n h number fits =
    let clean : all_bytes is_header_byte (c ∷ s) ≡ true = digits-header (c ∷ s) h in
    rw (clean, h, number) (ground arith)

parsed_plain : parse_header (codes "OK") ≡ received plain_header
unfolding parse_header forward.Prelude.Text-discrete
parsed_plain = refl

line_has_no_newline :
    (line : Text)
    → all_bytes is_line_byte line ≡ true
    → all_bytes (λ c. if c == 10 then false else true) line ≡ true
line_has_no_newline line h =
    all_bytes_mono is_line_byte (λ c. if c == 10 then false else true) line (λ c k. ground arith) h

-- The parser reaches the header and the payload.
parse_response-header :
    (decimal : ℕ → Text) (response : Response) (payload : Text)
    → ((n : ℕ) → all_bytes is_digit (decimal n) ≡ true)
    → parse_response (format_response decimal response ++ payload)
      ≡ and_then (parse_header (header decimal response)) (answer_whole payload)
unfolding format_response parse_response parse_split
parse_response-header decimal response payload digits =
    rw
      (
        step_back (header decimal response) 10 payload,
        split_once-append 10 (header decimal response) payload
            (line_has_no_newline (header decimal response) (line-header decimal response digits)),
      )
      refl

-- A client reads every readable response of the broker, payload included, as what it means: a plain
-- reply, the fields, the payload byte for byte, or the broker's error code. The decimal texts of
-- numbers hold digits only.
pub parse_response-format_response :
    (decimal : ℕ → Text) (response : Response) (payload : Text)
    → ((n : ℕ) → all_bytes is_digit (decimal n) ≡ true)
    → IsReadable decimal response payload
    → parse_response (format_response decimal response ++ payload) ≡ meant response payload
unfolding IsReadable meant header answer_whole if_empty finish_header payload_from_slice
parse_response-format_response decimal plain payload digits h =
    parse_response-header decimal plain payload digits ∙ rw (h, parsed_plain) refl
parse_response-format_response decimal (ok_fields values) payload digits (empty, shown, other) =
    parse_response-header decimal (ok_fields values) payload digits
    ∙ rw (empty, sanitize-printable values shown, parse_header-fields values shown other) refl
parse_response-format_response decimal (ok_bytes n) payload digits
      (has_length, fits, clean, number) =
    parse_response-header decimal (ok_bytes n) payload digits
    ∙ rw (parse_header-bytes (decimal n) n (digits n) number fits, sym has_length, clean)
        (ground arith)
parse_response-format_response decimal (failed code message) payload digits (empty, shown) =
    parse_response-header decimal (failed code message) payload digits
    ∙ rw (empty, sanitize-printable message shown, parse_header-failed code message shown) refl
