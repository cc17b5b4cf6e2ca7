-- ===== src/Names.antt =====
-- Names that clients send: secret keys (crates/secrets/src/secret.rs) and capabilities
-- (crates/secrets/src/capability.rs). Texts are UTF-8 bytes; a character that is not ASCII has bytes
-- of 128 and more, which no test here accepts.
pub mod Laws
pub mod Assignment
use forward.Prelude.{
  ℕ, suc, ◌+◌, ◌-◌, ◌≤◌, ◌<◌, ◌≡◌, refl, ap, Bool, true, false, not, ◌&&◌, ◌||◌, Option, none, some,
  List, [], ◌∷◌, ◌++◌, map, arith, ltb, leb, ◌==◌, if◌then◌else◌, length, any, Text, text_eq,
  all_bytes, is_digit, is_lower, is_alphabetic, is_alphanumeric, strip_suffix, split_once, codes,
  inl, inr, Bool-cases,
}
use forward.ErrCode.{Result, ok, err, bad_request, internal}

abbrev pub max_name_len : ℕ
max_name_len = 128

abbrev pub is_name_start : ℕ → Bool
is_name_start c = is_alphabetic c || c == 95

abbrev pub is_name_char : ℕ → Bool
is_name_char c = is_alphanumeric c || c == 95

-- The tests on the first character and on those after it.
unfoldable pub is_name : Text → Bool
is_name [] = false
is_name (first ∷ rest) = is_name_start first && all_bytes is_name_char rest

-- `SecretName::parse`
unfoldable pub parse_name : Text → Result Text
parse_name raw =
    if ltb max_name_len (length raw)
    then err bad_request
    else if is_name raw
    then ok raw
    else err bad_request

-- `.env` and `.local`
abbrev pub env_suffix : Text
env_suffix = 46 ∷ 101 ∷ 110 ∷ 118 ∷ []

abbrev pub local_suffix : Text
local_suffix = 46 ∷ 108 ∷ 111 ∷ 99 ∷ 97 ∷ 108 ∷ []

unfoldable pub file_name : Text → Text
file_name name = name ++ env_suffix

unfoldable pub local_file_name : Text → Text
local_file_name name = (name ++ local_suffix) ++ env_suffix

pub data HumanFileName : Type 0 where
  ignored : HumanFileName
  key : Text → Bool → HumanFileName
  invalid : HumanFileName

classify : Result Text → Bool → HumanFileName
classify (ok name) is_local = key name is_local
classify (err e) is_local = invalid

classify_stem : Text → Option Text → HumanFileName
unfolding classify
classify_stem stem none = classify (parse_name stem) false
classify_stem stem (some raw_name) = classify (parse_name raw_name) true

classify_file : Option Text → HumanFileName
unfolding classify_stem
classify_file none = ignored
classify_file (some stem) = classify_stem stem (strip_suffix local_suffix stem)

unfoldable pub parse_human_file_name : Text → HumanFileName
unfolding classify_file
parse_human_file_name name = classify_file (strip_suffix env_suffix name)

abbrev pub max_capability_len : ℕ
max_capability_len = 32

abbrev pub is_capability_char : ℕ → Bool
is_capability_char c = is_lower c || is_digit c || c == 95

unfoldable pub is_capability : Text → Bool
is_capability [] = false
is_capability (first ∷ rest) = is_lower first && all_bytes is_capability_char (first ∷ rest)

-- `Capability::parse`; a `Capability` is its validated name.
unfoldable pub parse_capability : Text → Result Text
parse_capability raw =
    if ltb max_capability_len (length raw)
    then err bad_request
    else if is_capability raw
    then ok raw
    else err bad_request

abbrev pub to_upper : ℕ → ℕ
to_upper c = if is_lower c then c - 32 else c

-- `CAP_`
abbrev pub capability_prefix : Text
capability_prefix = 67 ∷ 65 ∷ 80 ∷ 95 ∷ []

-- `Capability::key_name`
unfoldable pub key_name : Text → Text
key_name capability = capability_prefix ++ map to_upper capability
