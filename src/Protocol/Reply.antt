-- ===== src/Protocol/Reply.antt =====
-- crates/proto/src/response.rs: how a client reads a reply, in one piece (`parse_response`) or from a
-- stream (`read_response_by`). A header holds ASCII only, which is UTF-8. A buffer that cannot be
-- reserved is left out.
pub mod Laws
pub mod Stream
pub mod Sent
pub mod Accepted
use forward.Prelude.{
  ℕ, zero, suc, ◌-◌, Bool, true, false, ◌&&◌, ◌||◌, Option, none, some, List, [], ◌∷◌, ◌++◌, ltb,
  leb, ◌==◌, if◌then◌else◌, Text, text_eq, codes, length, any, all_bytes, is_digit, is_graphic,
  strip_prefix, strip_suffix, split_once, u64_max, is_some_and,
}
use forward.ErrCode.{ErrCode}
use forward.Protocol.Codes.{parse_wire}
use forward.Protocol.Numbers.{parse_unsigned}
use forward.Protocol.Request.{max_frame_bytes}

pub data BrokerResponse : Type 0 where
  done : BrokerResponse
  fields : Text → BrokerResponse
  bytes : Text → BrokerResponse

-- The kinds of `std::io::Error` that the reader tells apart.
pub data ErrorKind : Type 0 where
  timed_out interrupted : ErrorKind
  other : ℕ → ErrorKind

pub data ClientError : Type 0 where
  io : ErrorKind → ClientError
  approval_timeout invalid_request invalid_response version_handshake token_file : ClientError
  broker : ErrCode → ClientError

-- `Result<A, ClientError>`
pub data ClientResult {ℓ} (A : Type ℓ) : Type ℓ where
  received : A → ClientResult A
  failure : ClientError → ClientResult A

abbrev pub and_then {ℓ κ} :
    {A : Type ℓ} {B : Type κ} → ClientResult A → (A → ClientResult B) → ClientResult B
and_then (received a) f = f a
and_then (failure e) f = failure e

pub data Header : Type 0 where
  plain_header : Header
  fields_header : Text → Header
  bytes_header : ℕ → Header
  error_header : ErrCode → Header

abbrev pub is_header_byte : ℕ → Bool
is_header_byte c = is_graphic c || (c == 32 || c == 9)

-- `OK`, a tab and `len=`
abbrev pub len_prefix : Text
len_prefix = codes "OK" ++ 9 ∷ codes "len="

abbrev pub ok_prefix : Text
ok_prefix = codes "OK" ++ 9 ∷ []

abbrev pub err_prefix : Text
err_prefix = codes "ERR" ++ 9 ∷ []

unfoldable pub parsed_length : Option ℕ → ClientResult Header
parsed_length none = failure invalid_response
parsed_length (some n) =
    if ltb max_frame_bytes n then failure invalid_response else received (bytes_header n)

unfoldable pub parse_length : Text → ClientResult Header
parse_length [] = failure invalid_response
parse_length (c ∷ s) =
    if all_bytes is_digit (c ∷ s)
    then parsed_length (parse_unsigned u64_max (c ∷ s))
    else failure invalid_response

unfoldable pub known_code : Option ErrCode → ClientResult Header
known_code none = failure invalid_response
known_code (some code) = received (error_header code)

unfoldable pub parse_error : Option (Text × Text) → ClientResult Header
parse_error none = failure invalid_response
parse_error (some (code, message)) = known_code (parse_wire code)

unfoldable pub error_line : Option Text → ClientResult Header
error_line none = failure invalid_response
error_line (some error) = parse_error (split_once 9 error)

unfoldable pub fields_line : Text → Option Text → ClientResult Header
fields_line text none = error_line (strip_prefix err_prefix text)
fields_line text (some values) = received (fields_header values)

unfoldable pub length_line : Text → Option Text → ClientResult Header
length_line text none = fields_line text (strip_prefix ok_prefix text)
length_line text (some number) = parse_length number

unfoldable pub parse_header : Text → ClientResult Header
parse_header [] = failure invalid_response
parse_header (c ∷ s) =
    if all_bytes is_header_byte (c ∷ s)
    then if text_eq (c ∷ s) (codes "OK")
      then received plain_header
      else length_line (c ∷ s) (strip_prefix len_prefix (c ∷ s))
    else failure invalid_response

unfoldable pub finish_header : Header → ClientResult BrokerResponse
finish_header plain_header = received done
finish_header (fields_header values) = received (fields values)
finish_header (bytes_header n) = failure invalid_response
finish_header (error_header code) = failure (broker code)

abbrev pub contains_nul : Text → Bool
contains_nul payload = any (λ c. c == 0) payload

unfoldable pub payload_from_slice : Text → ℕ → ClientResult BrokerResponse
payload_from_slice payload n =
    if length payload == n
    then if contains_nul payload then failure invalid_response else received (bytes payload)
    else failure invalid_response

-- What follows a header that announces no payload.
unfoldable pub if_empty : Text → ClientResult BrokerResponse → ClientResult BrokerResponse
if_empty [] result = result
if_empty (c ∷ s) result = failure invalid_response

unfoldable pub answer_whole : Text → Header → ClientResult BrokerResponse
answer_whole payload (bytes_header n) = payload_from_slice payload n
answer_whole payload plain_header = if_empty payload (finish_header plain_header)
answer_whole payload (fields_header values) =
    if_empty payload (finish_header (fields_header values))
answer_whole payload (error_header code) = if_empty payload (finish_header (error_header code))

unfoldable pub parse_split : Option (Text × Text) → ClientResult BrokerResponse
parse_split none = failure invalid_response
parse_split (some (header, payload)) = and_then (parse_header header) (answer_whole payload)

unfoldable pub parse_response : Text → ClientResult BrokerResponse
parse_response response = parse_split (split_once 10 response)
