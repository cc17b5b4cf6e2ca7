-- ===== src/Names/Laws.antt =====
-- Names and the files that hold them, capabilities and their keys.
use forward.Prelude.{
  ℕ, ◌≤◌, ◌≡◌, refl, ap, true, false, not, none, some, [], ◌∷◌, ◌++◌, map, arith, ◌==◌, length,
  length-append, length-map, Text, text_eq, all_bytes, strip_suffix, inl, inr, Bool-cases,
}
use forward.ErrCode.{ok}
use forward.Names.{
  is_name, is_name_char, parse_name, env_suffix, local_suffix, file_name, local_file_name, key,
  parse_human_file_name, is_capability, is_capability_char, parse_capability, to_upper, key_name,
}

text_eq→eq : (a b : Text) → text_eq a b ≡ true → a ≡ b
text_eq→eq a b h = ground arith

strip_suffix_self : (suffix : Text) → strip_suffix suffix suffix ≡ some []
strip_suffix_self [] = ground arith
strip_suffix_self (c ∷ s) = ground arith

longer_is_other : (c : ℕ) (t suffix : Text) → text_eq (c ∷ t ++ suffix) suffix ≡ false
longer_is_other c t suffix = elim (Bool-cases (text_eq (c ∷ t ++ suffix) suffix)) [
  | inl e ↦
      absurd
        (omega (arith, ap length (text_eq→eq (c ∷ t ++ suffix) suffix e), length-append t suffix))
  | inr e ↦ e
]

-- `strip_suffix` takes off what was put on.
pub strip_suffix-append : (suffix s : Text) → strip_suffix suffix (s ++ suffix) ≡ some s
strip_suffix-append suffix [] = strip_suffix_self suffix
strip_suffix-append suffix (c ∷ s) =
    ground (arith, longer_is_other c s suffix, strip_suffix-append suffix s)

-- A text with no dot has no suffix that begins with one.
strip_suffix-none :
    (rest s : Text) → all_bytes (λ c. not (c == 46)) s ≡ true → strip_suffix (46 ∷ rest) s ≡ none
strip_suffix-none rest [] h = ground arith
strip_suffix-none rest (c ∷ s) h = ground (arith, strip_suffix-none rest s)

no_dot_chars :
    (s : Text) → all_bytes is_name_char s ≡ true → all_bytes (λ c. not (c == 46)) s ≡ true
no_dot_chars [] h = refl
no_dot_chars (c ∷ s) h = ground (arith, no_dot_chars s)

no_dot : (s : Text) → is_name s ≡ true → all_bytes (λ c. not (c == 46)) s ≡ true
unfolding is_name
no_dot [] h = cc
no_dot (c ∷ s) h = ground (arith, no_dot_chars s)

-- A name that parses is the text itself, and is a name.
pub parse_name-ok :
    (raw name : Text) → parse_name raw ≡ ok name → (raw ≡ name) × (is_name name ≡ true)
unfolding parse_name
parse_name-ok raw name h = ground arith

parse_name_again : (raw name : Text) → parse_name raw ≡ ok name → parse_name name ≡ ok name
unfolding parse_name
parse_name_again raw name h = ground arith

-- The two file names of a key are classified as that key, committed and machine-local.
pub parse_human_file_name-file_name :
    (raw name : Text)
    → parse_name raw ≡ ok name
    → (parse_human_file_name (file_name name) ≡ key name false)
      × (parse_human_file_name (local_file_name name) ≡ key name true)
unfolding parse_human_file_name file_name local_file_name
parse_human_file_name-file_name raw name h =
    let again : parse_name name ≡ ok name = parse_name_again raw name h in
    let bare : strip_suffix local_suffix name ≡ none =
      strip_suffix-none (108 ∷ 111 ∷ 99 ∷ 97 ∷ 108 ∷ []) name
        (no_dot name (parse_name-ok raw name h).1) in
    (
      rw (strip_suffix-append env_suffix name) (rw bare (rw again)),
      rw (strip_suffix-append env_suffix (name ++ local_suffix))
          (rw (strip_suffix-append local_suffix name) (rw again)),
    )

upper_is_name_char :
    (s : Text)
    → all_bytes is_capability_char s ≡ true
    → all_bytes is_name_char (map to_upper s) ≡ true
upper_is_name_char [] h = refl
upper_is_name_char (c ∷ s) h = ground (arith, upper_is_name_char s)

capability_chars : (s : Text) → is_capability s ≡ true → all_bytes is_capability_char s ≡ true
unfolding is_capability
capability_chars [] h = refl
capability_chars (c ∷ s) h = ground arith

pub parse_capability-ok :
    (raw cap : Text)
    → parse_capability raw ≡ ok cap
    → (is_capability cap ≡ true) × (length cap ≤ 32)
unfolding parse_capability
parse_capability-ok raw cap h = ground arith

-- The key behind a capability is a secret name.
pub parse_name-key_name :
    (raw cap : Text) → parse_capability raw ≡ ok cap → parse_name (key_name cap) ≡ ok (key_name cap)
unfolding parse_name key_name is_name
parse_name-key_name raw cap h =
    let is : (is_capability cap ≡ true) × (length cap ≤ 32) = parse_capability-ok raw cap h in
    ground
      (arith, is.1, length-map to_upper cap, upper_is_name_char cap (capability_chars cap is.0))

upper-injective :
    (s t : Text)
    → all_bytes is_capability_char s ≡ true
    → all_bytes is_capability_char t ≡ true
    → map to_upper s ≡ map to_upper t
    → s ≡ t
upper-injective [] [] hs ht e = refl
upper-injective [] (d ∷ t) hs ht e = cc
upper-injective (c ∷ s) [] hs ht e = cc
upper-injective (c ∷ s) (d ∷ t) hs ht e = ground (arith, upper-injective s t)

-- Two capabilities never share a key.
pub key_name-injective :
    (raw raw' cap cap' : Text)
    → parse_capability raw ≡ ok cap
    → parse_capability raw' ≡ ok cap'
    → key_name cap ≡ key_name cap'
    → cap ≡ cap'
unfolding key_name
key_name-injective raw raw' cap cap' h h' e =
    upper-injective cap cap' (capability_chars cap (parse_capability-ok raw cap h).0)
      (capability_chars cap' (parse_capability-ok raw' cap' h').0) (cc e)
