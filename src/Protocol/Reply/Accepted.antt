-- ===== src/Protocol/Reply/Accepted.antt =====
-- What `parse_response` of crates/proto/src/response.rs lets through as a payload.
use forward.Prelude.{
  ℕ, ◌≤◌, ◌≡◌, refl, false, Option, none, some, [], ◌∷◌, arith, Text, length, split_once,
  Option-cases, inl, inr, strip_prefix, u64_max,
}
use forward.Protocol.Codes.{parse_wire}
use forward.Protocol.Numbers.{parse_unsigned}
use forward.Protocol.Request.{max_frame_bytes}
use forward.Protocol.Reply.{
  BrokerResponse, bytes, ClientResult, received, Header, plain_header, fields_header, bytes_header,
  error_header, is_header_byte, len_prefix, ok_prefix, err_prefix, parsed_length, parse_length,
  known_code, parse_error, error_line, fields_line, length_line, parse_header, contains_nul,
  payload_from_slice, if_empty, finish_header, answer_whole, parse_split, parse_response, and_then,
}

known_code-other :
    (o : Option forward.ErrCode.ErrCode) (n : ℕ) → known_code o ≡ received (bytes_header n) → ⊥
unfolding known_code
known_code-other none n h = cc
known_code-other (some code) n h = cc

error_line-other : (o : Option Text) (n : ℕ) → error_line o ≡ received (bytes_header n) → ⊥
unfolding error_line parse_error
error_line-other none n h = cc
error_line-other (some error) n h = elim (Option-cases (split_once 9 error)) [
  | inl e ↦ absurd (ground (arith, e))
  | inr (r, e) ↦ known_code-other (parse_wire r.0) n (ground (arith, e))
]

fields_line-other :
    (text : Text) (o : Option Text) (n : ℕ) → fields_line text o ≡ received (bytes_header n) → ⊥
unfolding fields_line
fields_line-other text none n h = error_line-other (strip_prefix err_prefix text) n h
fields_line-other text (some values) n h = cc

parse_length-le :
    (s : Text) (n : ℕ) → parse_length s ≡ received (bytes_header n) → n ≤ max_frame_bytes
unfolding parse_length parsed_length
parse_length-le [] n h = absurd (cc h)
parse_length-le (c ∷ s) n h = elim (Option-cases (parse_unsigned u64_max (c ∷ s))) [
  | inl e ↦ absurd (ground (arith, e))
  | inr (k, e) ↦ ground (arith, e)
]

length_line-le :
    (text : Text) (o : Option Text) (n : ℕ)
    → length_line text o ≡ received (bytes_header n)
    → n ≤ max_frame_bytes
unfolding length_line
length_line-le text none n h = absurd (fields_line-other text (strip_prefix ok_prefix text) n h)
length_line-le text (some number) n h = parse_length-le number n h

parse_header-le :
    (text : Text) (n : ℕ) → parse_header text ≡ received (bytes_header n) → n ≤ max_frame_bytes
unfolding parse_header
parse_header-le [] n h = absurd (cc h)
parse_header-le (c ∷ s) n h =
    length_line-le (c ∷ s) (strip_prefix len_prefix (c ∷ s)) n (ground arith)

slice_lem :
    (payload : Text) (n : ℕ) (p : Text)
    → payload_from_slice payload n ≡ received (bytes p)
    → (p ≡ payload) × (length p ≡ n) × (contains_nul p ≡ false)
unfolding payload_from_slice
slice_lem payload n p h = (ground arith, ground arith, ground arith)

if_empty-other :
    (payload : Text) (header : Header) (p : Text)
    → ((n : ℕ) → header ≡ bytes_header n → ⊥)
    → if_empty payload (finish_header header) ≡ received (bytes p)
    → ⊥
unfolding if_empty finish_header
if_empty-other (c ∷ s) header p other h = cc
if_empty-other [] plain_header p other h = cc
if_empty-other [] (fields_header values) p other h = cc
if_empty-other [] (bytes_header n) p other h = cc
if_empty-other [] (error_header code) p other h = cc

answer_whole-bytes :
    (payload : Text) (r : ClientResult Header) (p : Text)
    → and_then r (answer_whole payload) ≡ received (bytes p)
    → (r ≡ received (bytes_header (length p))) × (p ≡ payload) × (contains_nul p ≡ false)
unfolding answer_whole
answer_whole-bytes payload (forward.Protocol.Reply.failure e) p h = absurd (cc h)
answer_whole-bytes payload (received (bytes_header n)) p h =
    let (same, count, clean) = slice_lem payload n p h in (rw count refl, same, clean)
answer_whole-bytes payload (received plain_header) p h =
    absurd (if_empty-other payload plain_header p (λ n e. cc) h)
answer_whole-bytes payload (received (fields_header values)) p h =
    absurd (if_empty-other payload (fields_header values) p (λ n e. cc) h)
answer_whole-bytes payload (received (error_header code)) p h =
    absurd (if_empty-other payload (error_header code) p (λ n e. cc) h)

-- A payload that a client accepts is all that follows the first line, that line announces its
-- length, it is no longer than a frame, and it holds no NUL.
pub parse_response-payload :
    (response p : Text)
    → parse_response response ≡ received (bytes p)
    → (header : Text) × (split_once 10 response ≡ some (header, p))
      × (parse_header header ≡ received (bytes_header (length p)))
      × (length p ≤ max_frame_bytes)
      × (contains_nul p ≡ false)
unfolding parse_response parse_split
parse_response-payload response p h = elim (Option-cases (split_once 10 response)) [
  | inl e ↦ absurd (ground (arith, e))
  | inr (r, e) ↦
      let accepted : and_then (parse_header r.0) (answer_whole r.1) ≡ received (bytes p) =
        ground (arith, e) in
      let (announced, same, clean) = answer_whole-bytes r.1 (parse_header r.0) p accepted in
      (r.0, rw (same, e) refl, announced, parse_header-le r.0 (length p) announced, clean)
]
