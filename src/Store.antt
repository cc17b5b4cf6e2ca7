-- ===== src/Store.antt =====
-- crates/secrets/src/store.rs: the search of the human-tier directories. What `read_dir`, `openat`
-- and `fstat` find there is an argument; a file name that is not UTF-8 is `none`.
pub mod Backed
pub mod Laws
pub mod Errors
use forward.Prelude.{
  ℕ, suc, ◌≡◌, refl, Bool, true, false, Option, none, some, List, [], ◌∷◌, ◌++◌, ◌==◌, leb, ltb,
  if◌then◌else◌, Text, text_eq, codes,
}
use forward.ErrCode.{ErrCode, Result, ok, err, internal, not_human_key, ambiguous_key, ◌>>=◌}
use forward.Names.{HumanFileName, ignored, key, invalid, parse_human_file_name}
use forward.Grants.Table.{FileIdentity}

pub record HumanSource : Type 0 where
  pub label : Text
  pub dir : Text

-- An entry of a directory: what the iteration yields.
pub data DirEntry : Type 0 where
  broken : DirEntry
  named : Option Text → DirEntry

pub data Listing : Type 0 where
  not_found unreadable : Listing
  entries : List DirEntry → Listing

pub record Candidate : Type 0 where
  pub label : Text
  pub dir : Text
  pub file_name : Text

-- `HumanStore::directory_entries`
unfoldable pub directory_entries : Listing → Result (Option (List DirEntry))
directory_entries (entries es) = ok (some es)
directory_entries not_found = ok none
directory_entries unreadable = err internal

unfoldable pub classified : Text → HumanFileName → Result (Option (Text × Bool × Text))
classified text ignored = ok none
classified text invalid = err internal
classified text (key name is_local) = ok (some (name, is_local, text))

-- `HumanStore::human_file_name`
unfoldable pub human_file_name : Option Text → Result (Option (Text × Bool × Text))
human_file_name none = ok none
human_file_name (some text) = classified text (parse_human_file_name text)

-- An entry of the iteration, read as a key's file.
unfoldable pub read_entry : DirEntry → Result (Option (Text × Bool × Text))
read_entry broken = err internal
read_entry (named name) = human_file_name name

abbrev pub local_label : Text → Bool → Text
local_label label is_local = if is_local then label ++ codes ".local" else label

unfoldable pub candidate_of : HumanSource → Text → Option (Text × Bool × Text) → List Candidate
candidate_of source requested none = []
candidate_of source requested (some (name, is_local, text)) =
    if text_eq name requested
    then record { label = local_label source.label is_local; dir = source.dir; file_name = text }
      ∷ []
    else []

-- The loop over the entries of one source: its candidates, and then those of the rest.
unfoldable pub candidates_in : HumanSource → Text → List DirEntry → Result (List Candidate)
candidates_in source requested [] = ok []
candidates_in source requested (e ∷ es) = do
  found ← read_entry e
  rest ← candidates_in source requested es
  ok (candidate_of source requested found ++ rest)

unfoldable pub listed : HumanSource → Text → Option (List DirEntry) → Result (List Candidate)
listed source requested none = ok []
listed source requested (some es) = candidates_in source requested es

-- `HumanStore::candidates`
unfoldable pub candidates : (Text → Listing) → List HumanSource → Text → Result (List Candidate)
candidates read_dir [] requested = ok []
candidates read_dir (source ∷ sources) requested = do
  es ← directory_entries (read_dir source.dir)
  here ← listed source requested es
  rest ← candidates read_dir sources requested
  ok (here ++ rest)

unfoldable pub sole : List Candidate → Result Candidate
sole [] = err not_human_key
sole (c ∷ []) = ok c
sole (c ∷ d ∷ cs) = err ambiguous_key

-- `HumanStore::locate`
unfoldable pub locate : (Text → Listing) → List HumanSource → Text → Result Text
locate read_dir sources requested = do
  cs ← candidates read_dir sources requested
  c ← sole cs
  ok c.label

pub record OpenedHumanFile : Type 0 where
  pub label : Text
  pub identity : FileIdentity
  pub contents : Text

-- What the steps of `open` after the search answer for a candidate: `none` where the directory or
-- the file cannot be opened, the file is a symbolic link, or `fstat` fails; otherwise whether the
-- file is a regular one, its identity, and its contents.
abbrev pub Opener : Type 0
Opener = Candidate → Option (Bool × FileIdentity × Text)

unfoldable pub opened : Candidate → Option (Bool × FileIdentity × Text) → Result OpenedHumanFile
opened c none = err not_human_key
opened c (some (is_regular, identity, contents)) =
    if is_regular
    then ok (record { label = c.label; identity = identity; contents = contents })
    else err not_human_key

-- `HumanStore::open`
unfoldable pub open_file :
    (Text → Listing) → Opener → List HumanSource → Text → Result OpenedHumanFile
open_file read_dir opener sources requested = do
  cs ← candidates read_dir sources requested
  c ← sole cs
  opened c (opener c)

-- `HumanStore::identity`
unfoldable pub identity : (Text → Listing) → Opener → List HumanSource → Text → Result FileIdentity
identity read_dir opener sources requested = do
  file ← open_file read_dir opener sources requested
  ok file.identity

-- The order of `BTreeSet`, by bytes.
abbrev pub lt_text : Text → Text → Bool
lt_text [] [] = false
lt_text [] (d ∷ t) = true
lt_text (c ∷ s) [] = false
lt_text (c ∷ s) (d ∷ t) = let rest = lt_text s t in if c == d then rest else ltb c d

abbrev pub insert_name : Text → List Text → List Text
insert_name name [] = name ∷ []
insert_name name (n ∷ names) =
    let rest = insert_name name names in
    if text_eq name n then n ∷ names else if lt_text name n then name ∷ n ∷ names else n ∷ rest

abbrev insert_found : Option (Text × Bool × Text) → List Text → List Text
insert_found none names = names
insert_found (some (name, is_local, text)) names = insert_name name names

unfoldable pub names_in : List DirEntry → List Text → Result (List Text)
names_in [] names = ok names
names_in (e ∷ es) names = read_entry e >>= λ found. names_in es (insert_found found names)

unfoldable pub names_listed : Option (List DirEntry) → List Text → Result (List Text)
names_listed none names = ok names
names_listed (some es) names = names_in es names

-- `HumanStore::key_names`, with the names found before.
unfoldable pub key_names : (Text → Listing) → List HumanSource → List Text → Result (List Text)
key_names read_dir [] names = ok names
key_names read_dir (source ∷ sources) names = do
  es ← directory_entries (read_dir source.dir)
  names' ← names_listed es names
  key_names read_dir sources names'
