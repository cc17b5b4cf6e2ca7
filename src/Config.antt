-- ===== src/Config.antt =====
-- crates/secrets/src/config.rs: the source roots. What the `toml` crate reads is an argument: the
-- entries of the source table in the order it gives them, each with the path that its value holds, if
-- the value is a table of just a path. Paths are bytes; two are equal by their components, as
-- `PathBuf` compares them.
pub mod Laws
use forward.Prelude.{
  ℕ, Bool, true, false, not, ◌&&◌, ◌||◌, Option, none, some, List, [], ◌∷◌, ◌++◌, ◌==◌,
  if◌then◌else◌, Text, text_eq, codes, any, all_bytes, is_lower, is_digit, strip_prefix,
}

pub data ConfigError : Type 0 where
  missing unread toml no_roots root_not_directory no_home : ConfigError
  bad_root_name relative_path : Text → ConfigError
  duplicate_path : Text → Text → ConfigError

-- `Result<A, ConfigError>`
pub data Checked {ℓ} (A : Type ℓ) : Type ℓ where
  ok : A → Checked A
  err : ConfigError → Checked A

infixl 5 ◌>>=◌
abbrev pub ◌>>=◌ {ℓ κ} : {A : Type ℓ} {B : Type κ} → Checked A → (A → Checked B) → Checked B
ok a >>= f = f a
err e >>= f = err e

pub record SourceRoot : Type 0 where
  pub name : Text
  pub path : Text

abbrev pub is_root_char : ℕ → Bool
is_root_char c = is_lower c || is_digit c || c == 45

unfoldable pub is_root_name : Text → Bool
is_root_name [] = false
is_root_name (first ∷ rest) = is_lower first && all_bytes is_root_char rest

-- `Path::is_absolute`
abbrev pub is_absolute : Text → Bool
is_absolute [] = false
is_absolute (c ∷ s) = c == 47

abbrev pub cons_part : ℕ → List Text → List Text
cons_part c [] = (c ∷ []) ∷ []
cons_part c (part ∷ parts) = (c ∷ part) ∷ parts

abbrev pub split_slashes : Text → List Text
split_slashes [] = [] ∷ []
split_slashes (c ∷ s) =
    let parts = split_slashes s in if c == 47 then [] ∷ parts else cons_part c parts

abbrev pub is_skipped : Text → Bool
is_skipped part = text_eq part [] || text_eq part (46 ∷ [])

abbrev pub kept_parts : List Text → List Text
kept_parts [] = []
kept_parts (part ∷ parts) =
    let rest = kept_parts parts in if is_skipped part then rest else part ∷ rest

-- `Path::components` of an absolute path, less the root: empty parts and `.` are skipped.
abbrev pub components : Text → List Text
components path = kept_parts (split_slashes path)

abbrev pub same_parts : List Text → List Text → Bool
same_parts [] [] = true
same_parts [] (q ∷ qs) = false
same_parts (p ∷ ps) [] = false
same_parts (p ∷ ps) (q ∷ qs) = let rest = same_parts ps qs in text_eq p q && rest

abbrev pub path_eq : Text → Text → Bool
path_eq a b = same_parts (components a) (components b)

abbrev pub trim_slashes : Text → Text
trim_slashes [] = []
trim_slashes (c ∷ s) = let rest = trim_slashes s in if c == 47 then rest else c ∷ s

abbrev pub ends_with_slash : Text → Bool
ends_with_slash [] = false
ends_with_slash (c ∷ []) = c == 47
ends_with_slash (c ∷ d ∷ s) = ends_with_slash (d ∷ s)

-- `Path::join` with a path that is not absolute.
abbrev pub join : Text → Text → Text
join home path = if ends_with_slash home then home ++ path else home ++ 47 ∷ path

abbrev pub under_home : Text → Text → Option Text → Text
under_home raw home none = raw
under_home raw home (some path) = join home (trim_slashes path)

-- Where `~` or a path below it is put in place of the raw path.
unfoldable pub expand_home : Text → Text → Text
expand_home raw home =
    if text_eq raw (126 ∷ []) then home else under_home raw home (strip_prefix (126 ∷ 47 ∷ []) raw)

abbrev pub has_parent : Text → Bool
has_parent path = any (λ part. text_eq part (46 ∷ 46 ∷ [])) (components path)

unfoldable pub resolve_path : Text → Text → Checked Text
resolve_path raw home =
    let path = expand_home raw home in
    if is_absolute path && not (has_parent path) then ok path else err (relative_path raw)

abbrev pub name_of : Text → List SourceRoot → Option Text
name_of path [] = none
name_of path (root ∷ roots) =
    let rest = name_of path roots in if path_eq root.path path then some root.name else rest

unfoldable pub add_root : Text → Text → Option Text → List SourceRoot → Checked (List SourceRoot)
add_root name path (some first) roots = err (duplicate_path first name)
add_root name path none roots = ok (roots ++ record { name = name; path = path } ∷ [])

unfoldable pub raw_path : Option Text → Checked Text
raw_path none = err toml
raw_path (some path) = ok path

unfoldable pub read_root : Text → Text → Option Text → List SourceRoot → Checked (List SourceRoot)
read_root home name value roots =
    if is_root_name name
    then (raw_path value >>= λ raw.
        resolve_path raw home >>= λ path. add_root name path (name_of path roots) roots)
    else err (bad_root_name name)

-- The loop over the table, after the roots read before.
unfoldable pub read_roots :
    Text → List (Text × Option Text) → List SourceRoot → Checked (List SourceRoot)
read_roots home [] roots = ok roots
read_roots home (entry ∷ entries) roots =
    read_root home entry.0 entry.1 roots >>= λ roots'. read_roots home entries roots'

-- What the document is: no TOML, one that is not a single table of sources, or the sources.
pub data Document : Type 0 where
  malformed other_shape : Document
  source_table : List (Text × Option Text) → Document

unfoldable pub parse_document : Text → Document → Checked (List SourceRoot)
parse_document home malformed = err toml
parse_document home other_shape = err toml
parse_document home (source_table []) = err no_roots
parse_document home (source_table (entry ∷ entries)) = read_roots home (entry ∷ entries) []

-- `Sources::parse`
unfoldable pub parse : Text → Document → Checked (List SourceRoot)
parse home document = if is_absolute home then parse_document home document else err no_home

abbrev pub environment_path : Option Text → Option Text
environment_path none = none
environment_path (some []) = none
environment_path (some (c ∷ s)) = some (c ∷ s)

unfoldable pub home_path : Option Text → Checked Text
home_path value = elim (environment_path value) [
  | none ↦ err no_home
  | some home ↦ if is_absolute home then ok home else err no_home
]

unfoldable pub below_home : Option Text → Option Text → Checked Text
below_home (some directory) home = ok (join directory (codes "secretsd/config.toml"))
below_home none home = home_path home >>= λ h. ok (join h (codes ".config/secretsd/config.toml"))

unfoldable pub path_or : Option Text → Option Text → Option Text → Checked Text
path_or (some path) directory home = ok path
path_or none directory home = below_home directory home

-- `Sources::config_path`, for the values of SECRETSD_CONFIG, XDG_CONFIG_HOME and HOME.
unfoldable pub config_path : Option Text → Option Text → Option Text → Checked Text
config_path own directory home = path_or (environment_path own) (environment_path directory) home

pub data FileText : Type 0 where
  absent unreadable : FileText
  contents : Document → FileText

unfoldable pub file_document : FileText → Checked Document
file_document absent = err missing
file_document unreadable = err unread
file_document (contents document) = ok document

unfoldable pub check_directories :
    (Text → Bool) → List SourceRoot → List SourceRoot → Checked (List SourceRoot)
check_directories is_dir all_roots [] = ok all_roots
check_directories is_dir all_roots (root ∷ roots) =
    let rest = check_directories is_dir all_roots roots in
    if is_dir root.path then rest else err root_not_directory

-- `Sources::load`, for what is read at a path and which paths are directories.
unfoldable pub load :
    (Text → FileText)
    → (Text → Bool)
    → Option Text
    → Option Text
    → Option Text
    → Checked (List SourceRoot)
load read_to_string is_dir own directory home_value = home_path home_value >>= λ home.
    config_path own directory home_value >>= λ file.
    file_document (read_to_string file) >>= λ document.
    parse home document >>= λ roots. check_directories is_dir roots roots

-- `SourceRoot::agent_files` and `human_dir`
unfoldable pub agent_files : SourceRoot → Text × Text
agent_files root =
    (join root.path (codes "secrets.local.env"), join root.path (codes "secrets.env"))

unfoldable pub human_dir : SourceRoot → Text
human_dir root = join root.path (codes "secrets.human.d")
