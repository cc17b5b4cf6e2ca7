-- ===== src/Protocol/Reply/Sent.antt =====
-- The stream reader of crates/proto/src/response.rs against its parser of a reply in one piece.
use forward.Prelude.{
  ℕ, zero, suc, ◌+◌, ◌≤◌, ◌<◌, ◌⊎◌, ◌≡◌, refl, sym, ap, ◌∙◌, none, some, [], ◌∷◌, ◌++◌, arith, ltb,
  ◌==◌, if◌then◌else◌, Text, length, length-append, split_once, split_step, split_head,
  split_missing, Bool-cases, Option-cases, inl, inr,
}
use forward.Names.Laws.{strip_suffix-append}
use forward.Protocol.Request.{max_frame_bytes}
use forward.Protocol.Reply.{
  ClientResult, received, failure, invalid_response, and_then, Header, plain_header, fields_header,
  bytes_header, error_header, parse_header, payload_from_slice, answer_whole, if_empty, parse_split,
  parse_response,
}
use forward.Protocol.Reply.Stream.{
  read_header_line, read_payload, reject_trailing_bytes, bytes_response, answer_stream, answer_line,
  read_response_by, sent, in_time,
}

pub step_back : (acc : Text) (c : ℕ) (h : Text) → (acc ++ c ∷ []) ++ h ≡ acc ++ c ∷ h
step_back [] c h = refl
step_back (a ∷ acc) c h = ap (λ t. a ∷ t) (step_back acc c h)

no_more : (acc : Text) → acc ++ [] ≡ acc
no_more [] = refl
no_more (a ∷ acc) = ap (λ t. a ∷ t) (no_more acc)

in_time-on {ℓ} :
    {A : Type ℓ} (now : ℕ) (line : Text) (more : ClientResult A)
    → length line ≤ max_frame_bytes
    → in_time none now line more ≡ more
in_time-on now line more fits = ground arith

-- A newline within the bound ends the line.
line-sent :
    (last : ℕ) (acc s h p : Text)
    → split_once 10 s ≡ some (h, p)
    → length acc + length h ≤ max_frame_bytes
    → read_header_line none last acc (sent s) ≡ received ((acc ++ h) ++ 10 ∷ [], sent p)
unfolding read_header_line
line-sent last acc [] h p found fits = absurd (cc found)
line-sent last acc (c ∷ s) h p found fits =
    let more = read_header_line none last (acc ++ c ∷ []) (sent s) in
    in_time-on 0 acc (if c == 10 then received (acc ++ c ∷ [], sent s) else more)
      (omega (arith, fits))
    ∙ elim (Bool-cases (c == 10)) [
      | inl e ↦
          let (is_c, is_h, is_p) = split_head c s h p e found in
          rw (is_h, is_p, is_c, no_more acc) refl
      | inr e ↦
          let (h', is_h, found') = split_step c s h p e found in
          let rest =
            line-sent last (acc ++ c ∷ []) s h' p found'
              (omega (arith, fits, length-append acc (c ∷ []), ap length is_h)) in
          ap (λ b. if b then received (acc ++ c ∷ [], sent s) else more) e
          ∙ rest
          ∙ ap (λ t. received (t ++ 10 ∷ [], sent p))
              (step_back acc c h' ∙ ap (λ t. acc ++ t) (sym is_h))
    ]

-- Without a newline the line is refused.
line-unsent :
    (last : ℕ) (acc s : Text)
    → split_once 10 s ≡ none
    → read_header_line none last acc (sent s) ≡ failure invalid_response
unfolding read_header_line
line-unsent last acc [] missing = ground arith
line-unsent last acc (c ∷ s) missing =
    let rest = line-unsent last (acc ++ c ∷ []) s (split_missing c s missing) in
    ground (arith, rest)

compare_cases : (a b : ℕ) → (a < b) ⊎ (a ≡ b) ⊎ (b < a)
compare_cases a b = elim (Bool-cases (ltb a b)) [
  | inl e ↦ inl (ground arith)
  | inr e ↦ elim (Bool-cases (a == b)) [
    | inl f ↦ inr (inl (ground arith))
    | inr f ↦ inr (inr (ground arith))
  ]
]

short-sent : (p : Text) (n : ℕ) → length p < n → read_payload (sent p) n ≡ failure invalid_response
unfolding read_payload
short-sent p zero h = absurd (omega (arith, h))
short-sent [] (suc n) h = refl
short-sent (c ∷ p) (suc n) h = rw (short-sent p n (omega (arith, h))) refl

whole-sent : (p : Text) → read_payload (sent p) (length p) ≡ received (p, [])
unfolding read_payload
whole-sent [] = refl
whole-sent (c ∷ p) = rw (whole-sent p) refl

long-sent :
    (p : Text) (n : ℕ)
    → n < length p
    → (a : Text) × (c : ℕ) × (b : Text) × (read_payload (sent p) n ≡ received (a, sent (c ∷ b)))
unfolding read_payload
long-sent [] n h = absurd (omega (arith, h))
long-sent (c ∷ p) zero h = ([], c, p, refl)
long-sent (c ∷ p) (suc n) h =
    let (a, d, b, e) = long-sent p n (omega (arith, h)) in (c ∷ a, d, b, rw e refl)

-- The payload that a length announces.
payload-sent : (p : Text) (n : ℕ) → answer_stream (sent p) (bytes_header n) ≡ payload_from_slice p n
unfolding answer_stream payload_from_slice reject_trailing_bytes bytes_response
payload-sent p n = elim (compare_cases (length p) n) [
  | inl h ↦ rw (short-sent p n h) (ground arith)
  | inr (inl h) ↦ rw (sym h, whole-sent p) (ground arith)
  | inr (inr h) ↦ let (a, c, b, e) = long-sent p n h in rw e (ground arith)
]

answer-sent : (p : Text) (header : Header) → answer_stream (sent p) header ≡ answer_whole p header
unfolding answer_stream answer_whole if_empty reject_trailing_bytes
answer-sent p (bytes_header n) = payload-sent p n
answer-sent [] plain_header = refl
answer-sent (c ∷ p) plain_header = refl
answer-sent [] (fields_header values) = refl
answer-sent (c ∷ p) (fields_header values) = refl
answer-sent [] (error_header code) = refl
answer-sent (c ∷ p) (error_header code) = refl

same {ℓ κ} :
    {A : Type ℓ} {B : Type κ} (r : ClientResult A) (f g : A → ClientResult B)
    → ((a : A) → f a ≡ g a)
    → and_then r f ≡ and_then r g
same (received a) f g h = h a
same (failure e) f g h = refl

-- A client without a deadline that reads from a peer which sends a text and closes the connection
-- answers what `parse_response` answers for the whole text, where the first line, if there is one,
-- has at most `MAX_FRAME_BYTES` bytes.
pub read_response_by-sent :
    (last now : ℕ) (text : Text)
    → ((h p : Text) → split_once 10 text ≡ some (h, p) → length h ≤ max_frame_bytes)
    → read_response_by none last now (sent text) ≡ parse_response text
unfolding read_response_by parse_response answer_line parse_split
read_response_by-sent last now text bounded = elim (Option-cases (split_once 10 text)) [
  | inl missing ↦ rw (line-unsent last [] text missing, missing) refl
  | inr (r, found) ↦
      let line = line-sent last [] text r.0 r.1 found (omega (arith, bounded r.0 r.1 found)) in
      rw (line, strip_suffix-append (10 ∷ []) r.0, found) (answered r.0 r.1)
]
  where
    answered : (h p : Text) → answer_line none now (sent p) (some h) ≡ parse_split (some (h, p))
    answered h p = same (parse_header h) (answer_stream (sent p)) (answer_whole p) (answer-sent p)
