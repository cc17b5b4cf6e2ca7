-- ===== src/Opener/Policy.antt =====
-- crates/forward/src/policy.rs: which URLs open without a notice. The pattern and the parts of a URL
-- are bytes.
use forward.Prelude.{
  ℕ, Bool, true, false, ◌||◌, Option, none, some, List, [], ◌∷◌, ◌++◌, ◌==◌, if◌then◌else◌, Text,
  text_eq, codes, any, split_once, strip_prefix, is_some,
}
use forward.Protocol.Numbers.{parse_unsigned}
use forward.Opener.Url.{Url, to_ascii_lowercase, split_on, rsplit_once, trim_end_matches}

pub data Mode : Type 0 where
  automatic allowlist : Mode

pub data Decision : Type 0 where
  open_it notify : Decision

abbrev pub u16_max : ℕ
u16_max = 65535

abbrev pub with_port : Text → Text → Option ℕ → Text × Option ℕ
with_port whole host none = (whole, none)
with_port whole host (some port) = (host, some port)

abbrev pub parse_port : Option Text → Option ℕ
parse_port none = none
parse_port (some port) = parse_unsigned u16_max port

-- After the closing bracket of an address, which the host keeps.
abbrev pub bracketed : Text → Option (Text × Text) → Text × Option ℕ
bracketed whole none = (whole, none)
bracketed whole (some (address, suffix)) =
    with_port whole (address ++ 93 ∷ []) (parse_port (strip_prefix (58 ∷ []) suffix))

abbrev pub unbracketed : Text → Option (Text × Text) → Text × Option ℕ
unbracketed whole none = (whole, none)
unbracketed whole (some (host, port)) = with_port whole host (parse_port (some port))

unfoldable pub split_host_and_port : Text → Text × Option ℕ
split_host_and_port [] = ([], none)
split_host_and_port (c ∷ s) =
    if c == 91
    then bracketed (c ∷ s) (split_once 93 (c ∷ s))
    else unbracketed (c ∷ s) (rsplit_once 58 (c ∷ s))

-- `127.0.0.1` and `[::1]`
unfoldable pub normalize_loopback_alias : Text → Text
normalize_loopback_alias host =
    if text_eq host (codes "127.0.0.1")
    then codes "localhost"
    else if text_eq host (codes "[::1]")
    then codes "localhost"
    else host

-- The loop over the labels of the pattern and of the host.
unfoldable pub match_labels : List Text → List Text → Bool
match_labels [] [] = true
match_labels [] (h ∷ hs) = false
match_labels (p ∷ ps) [] = false
match_labels (p ∷ ps) (h ∷ hs) =
    let rest = match_labels ps hs in if text_eq p (42 ∷ []) || text_eq p h then rest else false

unfoldable pub match_host : Text → Text → Bool
match_host host_pattern host =
    match_labels (split_on 46 (normalize_loopback_alias (to_ascii_lowercase host_pattern)))
      (split_on 46 (normalize_loopback_alias (to_ascii_lowercase host)))

abbrev pub is_empty : Text → Bool
is_empty [] = true
is_empty (c ∷ s) = false

unfoldable pub match_path : Text → Text → Bool
match_path path_prefix path =
    let trimmed = trim_end_matches 47 path_prefix in
    is_empty trimmed
    || text_eq path (47 ∷ trimmed)
    || is_some (strip_prefix ((47 ∷ trimmed) ++ 47 ∷ []) path)

-- The host part and the path prefix of a pattern.
abbrev pub pattern_parts : Text → Option (Text × Text) → Text × Text
pattern_parts pattern none = (pattern, [])
pattern_parts pattern (some parts) = parts

abbrev pub port_eq : Option ℕ → ℕ → Bool
port_eq none port = false
port_eq (some p) port = p == port

unfoldable pub match_port : Option ℕ → Url → Bool
match_port none url = true
match_port (some port) url = port_eq url.port_or_known_default port

unfoldable pub match_known_host : Text → Text → Option Text → Text → Bool
match_known_host host_pattern path_prefix none path = false
match_known_host host_pattern path_prefix (some host) path =
    if match_host host_pattern host then match_path path_prefix path else false

unfoldable pub match_parts : Text × Text → Url → Bool
match_parts (host_part, path_prefix) url =
    let (host_pattern, port) = split_host_and_port host_part in
    if match_port port url
    then match_known_host host_pattern path_prefix url.host_str url.path
    else false

unfoldable pub allow_matches : Text → Url → Bool
allow_matches pattern url = match_parts (pattern_parts pattern (split_once 47 pattern)) url

-- `decide`, for the mode and the patterns of the configuration.
unfoldable pub decide : Mode → List Text → Url → Decision
decide automatic allow url = open_it
decide allowlist allow url =
    if any (λ pattern. allow_matches pattern url) allow then open_it else notify
