-- ===== src/Protocol/Reply/Stream.antt =====
-- The stream reader of crates/proto/src/response.rs. A stream is what its reads find, each with the
-- time at which the deadline was looked at before it; after the last comes the end of the file. What
-- arrives is taken a byte at a time.
use forward.Prelude.{
  ℕ, zero, suc, Bool, Option, none, some, List, [], ◌∷◌, ◌++◌, leb, ◌==◌, if◌then◌else◌, Text,
  length, strip_suffix, is_some_and,
}
use forward.Protocol.Request.{max_frame_bytes}
use forward.Protocol.Reply.{
  BrokerResponse, bytes, ErrorKind, timed_out, interrupted, other, ClientResult, received, failure,
  io, invalid_response, and_then, Header, plain_header, fields_header, bytes_header, error_header,
  parse_header, finish_header, contains_nul,
}

-- The first number is the time.
pub data Arrival : Type 0 where
  byte : ℕ → ℕ → Arrival
  broken : ℕ → ErrorKind → Arrival

abbrev pub Stream : Type 0
Stream = List Arrival

-- Whether no time is left at `now`: `saturating_duration_since` is zero.
abbrev pub is_late : Option ℕ → ℕ → Bool
is_late deadline now = is_some_and deadline (λ d. leb d now)

-- The tests at the head of the loop's round.
abbrev pub in_time {ℓ} : {A : Type ℓ} → Option ℕ → ℕ → Text → ClientResult A → ClientResult A
in_time deadline now line more =
    if leb (length line) max_frame_bytes
    then if is_late deadline now then failure (io timed_out) else more
    else failure invalid_response

-- The line, its newline included, and what follows it. `last` is the time of the read that finds the
-- end of the file.
unfoldable pub read_header_line : Option ℕ → ℕ → Text → Stream → ClientResult (Text × Stream)
read_header_line deadline last line [] = in_time deadline last line (failure invalid_response)
read_header_line deadline last line (byte now c ∷ stream) =
    let more = read_header_line deadline last (line ++ c ∷ []) stream in
    in_time deadline now line (if c == 10 then received (line ++ c ∷ [], stream) else more)
read_header_line deadline last line (broken now interrupted ∷ stream) =
    let more = read_header_line deadline last line stream in in_time deadline now line more
read_header_line deadline last line (broken now timed_out ∷ stream) =
    in_time deadline now line (failure (io timed_out))
read_header_line deadline last line (broken now (other n) ∷ stream) =
    in_time deadline now line (failure (io (other n)))

-- `read_exact`, which reads again where a signal came between.
unfoldable pub read_payload : Stream → ℕ → ClientResult (Text × Stream)
read_payload stream zero = received ([], stream)
read_payload [] (suc n) = failure invalid_response
read_payload (byte now c ∷ stream) (suc n) =
    and_then (read_payload stream n) (λ (payload, rest). received (c ∷ payload, rest))
read_payload (broken now interrupted ∷ stream) (suc n) = read_payload stream (suc n)
read_payload (broken now timed_out ∷ stream) (suc n) = failure (io timed_out)
read_payload (broken now (other k) ∷ stream) (suc n) = failure (io (other k))

unfoldable pub reject_trailing_bytes : Stream → ClientResult (Unit {0})
reject_trailing_bytes [] = received tt
reject_trailing_bytes (byte now c ∷ stream) = failure invalid_response
reject_trailing_bytes (broken now e ∷ stream) = failure (io e)

unfoldable pub bytes_response : Text → ClientResult BrokerResponse
bytes_response payload =
    if contains_nul payload then failure invalid_response else received (bytes payload)

unfoldable pub answer_stream : Stream → Header → ClientResult BrokerResponse
answer_stream stream (bytes_header n) =
    and_then (read_payload stream n)
      (λ (payload, rest). and_then (reject_trailing_bytes rest) (λ _. bytes_response payload))
answer_stream stream plain_header =
    and_then (reject_trailing_bytes stream) (λ _. finish_header plain_header)
answer_stream stream (fields_header values) =
    and_then (reject_trailing_bytes stream) (λ _. finish_header (fields_header values))
answer_stream stream (error_header code) =
    and_then (reject_trailing_bytes stream) (λ _. finish_header (error_header code))

-- The line without its newline, looked at at `now`.
unfoldable pub answer_line : Option ℕ → ℕ → Stream → Option Text → ClientResult BrokerResponse
answer_line deadline now stream none = failure invalid_response
answer_line deadline now stream (some header) =
    if is_late deadline now
    then failure (io timed_out)
    else and_then (parse_header header) (answer_stream stream)

unfoldable pub read_response_by : Option ℕ → ℕ → ℕ → Stream → ClientResult BrokerResponse
read_response_by deadline last now stream =
    and_then (read_header_line deadline last [] stream)
      (λ (line, rest). answer_line deadline now rest (strip_suffix (10 ∷ []) line))

-- A peer that sends a text and closes the connection.
abbrev pub sent : Text → Stream
sent [] = []
sent (c ∷ s) = byte 0 c ∷ sent s
