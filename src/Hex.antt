-- ===== src/Hex.antt =====
-- crates/hygiene/src/hex.rs: hexadecimal text of credentials, and crates/secrets/src/grants/token.rs:
-- how a session token is read from it.
use forward.Prelude.{
  ℕ, ◌+◌, ◌-◌, ◌*◌, ◌/◌, ◌%◌, ◌<◌, ◌≡◌, refl, ap, sym, ◌∙◌, Bool, true, false, ◌&&◌, ◌||◌, Option,
  none, some, List, [], ◌∷◌, arith, ltb, leb, ◌==◌, if◌then◌else◌, length, All, Text, is_digit,
  all_bytes,
}
use forward.ErrCode.{Result, ok, err, bad_request}

-- HEX_DIGITS
hex_char : ℕ → ℕ
hex_char n = if ltb n 10 then 48 + n else 87 + n

unfoldable pub encode : List ℕ → Text
unfolding hex_char
encode [] = []
encode (byte ∷ bytes) = hex_char (byte / 16) ∷ hex_char (byte % 16) ∷ encode bytes

-- The value of a digit of either case.
hex_digit : ℕ → Option ℕ
hex_digit c =
    if is_digit c
    then some (c - 48)
    else if leb 97 c && leb c 102
    then some (c - 87)
    else if leb 65 c && leb c 70
    then some (c - 55)
    else none

is_hexdigit : ℕ → Bool
is_hexdigit c = is_digit c || (leb 97 c && leb c 102 || leb 65 c && leb c 70)

two_digits : Option ℕ → Option ℕ → Option ℕ
two_digits none low = none
two_digits (some high) none = none
two_digits (some high) (some low) = some (high * 16 + low)

-- `u8::from_str_radix` of two characters: a sign may take the place of the first digit.
unfoldable pub from_pair : ℕ → ℕ → Option ℕ
unfolding hex_digit two_digits
from_pair a b = if a == 43 then hex_digit b else two_digits (hex_digit a) (hex_digit b)

abbrev pub cons_both : Option ℕ → Option (List ℕ) → Option (List ℕ)
cons_both none rest = none
cons_both (some byte) none = none
cons_both (some byte) (some bytes) = some (byte ∷ bytes)

-- The loop over the pairs of characters.
unfoldable pub from_pairs : Text → Option (List ℕ)
from_pairs [] = some []
from_pairs (a ∷ []) = none
from_pairs (a ∷ b ∷ rest) = cons_both (from_pair a b) (from_pairs rest)

unfoldable pub decode_exact : Text → ℕ → Option (List ℕ)
unfolding is_hexdigit
decode_exact raw expected_len =
    if length raw == expected_len * 2 && all_bytes is_hexdigit raw then from_pairs raw else none

or_bad_request : Option (List ℕ) → Result (List ℕ)
or_bad_request none = err bad_request
or_bad_request (some bytes) = ok bytes

abbrev pub token_len : ℕ
token_len = 32

-- `SessionToken::parse_hex`
unfoldable pub parse_hex : Text → Result (List ℕ)
unfolding or_bad_request
parse_hex text =
    if length text == token_len * 2 then or_bad_request (from_pairs text) else err bad_request

abbrev pub IsByte : ℕ → Type 0
IsByte b = b < 256

pub length-encode : (bytes : List ℕ) → length (encode bytes) ≡ length bytes * 2
unfolding encode
length-encode [] = refl
length-encode (b ∷ bytes) = omega (arith, length-encode bytes)

hex_digit-hex_char : (n : ℕ) → n < 16 → hex_digit (hex_char n) ≡ some n
unfolding hex_digit hex_char
hex_digit-hex_char n h = ground arith

not_plus : (n : ℕ) → n < 16 → (hex_char n == 43) ≡ false
unfolding hex_char
not_plus n h = ground arith

hexdigit-hex_char : (n : ℕ) → n < 16 → is_hexdigit (hex_char n) ≡ true
unfolding is_hexdigit hex_char
hexdigit-hex_char n h = ground arith

from_pair-hex_char : (b : ℕ) → b < 256 → from_pair (hex_char (b / 16)) (hex_char (b % 16)) ≡ some b
unfolding from_pair
from_pair-hex_char b h = rw (not_plus (b / 16) (omega arith)) (
    rw (hex_digit-hex_char (b / 16) (omega arith), hex_digit-hex_char (b % 16) (omega arith))
      (ap some (omega arith)))

pub from_pairs-encode : (bytes : List ℕ) → All IsByte bytes → from_pairs (encode bytes) ≡ some bytes
unfolding from_pairs encode
from_pairs-encode [] h = refl
from_pairs-encode (b ∷ bytes) h = rw (from_pair-hex_char b h.0) (rw (from_pairs-encode bytes h.1))

hexdigits-encode : (bytes : List ℕ) → All IsByte bytes → all_bytes is_hexdigit (encode bytes) ≡ true
unfolding encode
hexdigits-encode [] h = refl
hexdigits-encode (b ∷ bytes) h =
    rw (hexdigit-hex_char (b / 16) (omega arith))
      (rw (hexdigit-hex_char (b % 16) (omega arith)) (hexdigits-encode bytes h.1))

-- Decoding the text of some bytes, with their number as the length wanted, gives the bytes back.
pub decode_exact-encode :
    (bytes : List ℕ) → All IsByte bytes → decode_exact (encode bytes) (length bytes) ≡ some bytes
unfolding decode_exact
decode_exact-encode bytes h =
    ground (arith, length-encode bytes, hexdigits-encode bytes h, from_pairs-encode bytes h)

-- A session token is read back from its text.
pub parse_hex-encode :
    (token : List ℕ) → length token ≡ 32 → All IsByte token → parse_hex (encode token) ≡ ok token
unfolding parse_hex
parse_hex-encode token len h = ground (arith, length-encode token, from_pairs-encode token h)

from_pairs_step :
    (a b : ℕ) (rest : Text)
    → from_pairs (a ∷ b ∷ rest) ≡ cons_both (from_pair a b) (from_pairs rest)
unfolding from_pairs
from_pairs_step a b rest = refl

from_pair_plus : (c : ℕ) → from_pair 43 c ≡ from_pair 48 c
unfolding from_pair
from_pair_plus c = ground arith

from_pairs_plus : (c : ℕ) (rest : Text) → from_pairs (43 ∷ c ∷ rest) ≡ from_pairs (48 ∷ c ∷ rest)
from_pairs_plus c rest =
    from_pairs_step 43 c rest
    ∙ ap (λ p. cons_both p (from_pairs rest)) (from_pair_plus c)
    ∙ sym (from_pairs_step 48 c rest)

-- Two texts may name one token: a plus sign stands for a leading zero.
pub parse_hex_plus : (c : ℕ) (rest : Text) → parse_hex (43 ∷ c ∷ rest) ≡ parse_hex (48 ∷ c ∷ rest)
unfolding parse_hex
parse_hex_plus c rest = rw (from_pairs_plus c rest)
