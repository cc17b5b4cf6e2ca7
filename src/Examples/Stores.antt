-- ===== src/Examples/Stores.antt =====
-- The theorems on the store, the decryption, the configuration and the grants' promise at concrete
-- inputs.
use forward.Prelude.{
  ℕ, ◌+◌, ◌≤◌, ◌≡◌, ◌↔◌, refl, Bool, true, false, Option, none, some, List, [], ◌∷◌, ◌++◌, arith,
  Text, codes, text_eq, if◌then◌else◌,
}
use mathlib.Core.List.{Memᴰ}
use forward.ErrCode.{Result, ok, err, internal}
use forward.Names.{parse_human_file_name}
use forward.Names.Assignment.{parse_single_assignment}
use forward.Grants.Table.{lookup}
use forward.Grants.Refines.{
  Operation, inserts, revokes, revokes_expired, run, promised, IsBefore, run-promised,
}
use forward.Store.{
  HumanSource, Listing, named, entries, not_found, unreadable, Candidate, OpenedHumanFile, Opener,
  candidates, locate, open_file,
}
use forward.Store.Backed.{Backs}
use forward.Store.Laws.{candidates_iff}
use forward.Store.Errors.{HasFault, unlisted, faulty, Located, locate_internal_iff, locate_answers}
use forward.Config as Config
use forward.Config.Laws.{RootsOf, HasDistinctPaths, parse-ok}
use forward.Decrypt.{Round, runs, exited, DecryptedHumanFile, decrypt_opened}
use forward.Decrypt.Laws.{decrypt_opened-ok, decrypt_ends}
use forward.Examples.Data.{agent, key_a, file_a, origin_a}

abbrev operations : List Operation
operations =
    inserts agent key_a (codes "secret") 0 origin_a 60
    ∷ revokes_expired 5
    ∷ revokes agent (codes "OTHER")
    ∷ []

run-promised_example :
    lookup agent key_a 9 (run operations [])
    ≡ promised 9 operations (λ s k. lookup s k 9 []) agent key_a
unfolding IsBefore
run-promised_example = run-promised 9 operations [] agent key_a (omega arith, tt)

abbrev sources : List HumanSource
sources = record { label = codes "store"; dir = codes "/store" } ∷ []

abbrev file_name_a : Text
file_name_a = codes "API_KEY.env"

abbrev read_dir : Text → Listing
read_dir dir =
    if text_eq dir (codes "/store")
    then entries (named (some file_name_a) ∷ named none ∷ [])
    else not_found

abbrev candidate_a : Candidate
candidate_a = record { label = codes "store"; dir = codes "/store"; file_name = file_name_a }

candidates_iff_example :
    Memᴰ candidate_a (candidate_a ∷ []) ↔ Backs read_dir sources key_a candidate_a
unfolding candidates forward.Store.directory_entries forward.Prelude.Text-discrete
    forward.Store.listed forward.Store.candidates_in forward.Store.read_entry
    forward.Store.human_file_name forward.Store.classified parse_human_file_name
    forward.Names.parse_name forward.Names.is_name forward.Store.candidate_of
candidates_iff_example = candidates_iff read_dir sources key_a (candidate_a ∷ []) candidate_a refl

abbrev unlistable : Text → Listing
unlistable dir = unreadable

locate_internal_iff_example :
    (locate unlistable sources key_a ≡ err internal) ↔ HasFault unlistable sources
locate_internal_iff_example = locate_internal_iff unlistable sources key_a

no_fault : HasFault (λ dir. not_found) sources → ⊥
no_fault (unlisted m h) = cc h
no_fault (faulty m h e f) = cc h

locate_answers_example :
    Located (λ dir. not_found) sources key_a (locate (λ dir. not_found) sources key_a)
locate_answers_example = locate_answers (λ dir. not_found) sources key_a no_fault

abbrev opener : Opener
opener c = some (true, file_a, codes "sealed")

abbrev opened_a : OpenedHumanFile
opened_a = record { label = codes "store"; identity = file_a; contents = codes "sealed" }

abbrev rounds : List Round
rounds = runs 3 ∷ exited true none (some (codes "API_KEY=secret")) ∷ []

abbrev decrypted_a : DecryptedHumanFile
decrypted_a = record { source = codes "store"; identity = file_a; value = codes "secret" }

decrypt_opened-ok_example :
    (true ≡ true)
    × (file : OpenedHumanFile) × (open_file read_dir opener sources key_a ≡ ok file)
    × (stderr : Option Text) × (stdout : Text) × Memᴰ (exited true stderr (some stdout)) rounds
    × (parse_single_assignment stdout key_a ≡ ok decrypted_a.value)
    × (decrypted_a.source ≡ file.label)
    × (decrypted_a.identity ≡ file.identity)
unfolding decrypt_opened forward.Decrypt.decrypt_file forward.Decrypt.wait_started
    forward.Decrypt.wait_until forward.Decrypt.wait_rounds forward.Decrypt.finish_child
    forward.Decrypt.read_value open_file candidates forward.Store.directory_entries
    forward.Prelude.Text-discrete forward.Store.listed forward.Store.candidates_in
    forward.Store.read_entry forward.Store.human_file_name forward.Store.classified
    parse_human_file_name forward.Names.parse_name forward.Names.is_name forward.Store.sole
    forward.Store.candidate_of forward.Store.opened parse_single_assignment
decrypt_opened-ok_example =
    decrypt_opened-ok read_dir opener sources true 20 (some 1) rounds key_a decrypted_a refl

decrypt_ends_example :
    (r : Result DecryptedHumanFile) × (decrypt_opened read_dir opener sources true 20
        (some 1)
        (runs 3 ∷ runs 40 ∷ [])
        key_a
      ≡ some r)
decrypt_ends_example =
    decrypt_ends read_dir opener sources true 20 1 40 (runs 3 ∷ runs 40 ∷ []) key_a
      (Memᴰ.tail (Memᴰ.head refl)) (omega arith)

abbrev table : List (Text × Option Text)
table = (codes "work", some (codes "~/secrets")) ∷ (codes "host", some (codes "/etc/secrets")) ∷ []

abbrev roots : List Config.SourceRoot
roots =
    record { name = codes "work"; path = codes "/home/u/secrets" }
    ∷ record { name = codes "host"; path = codes "/etc/secrets" }
    ∷ []

parse-ok_example :
    (entry : Text × Option Text) × (entries : List (Text × Option Text)) × (Config.source_table
        table
      ≡ Config.source_table (entry ∷ entries))
    × RootsOf (codes "/home/u") (entry ∷ entries) roots
    × HasDistinctPaths roots
    × (Config.is_absolute (codes "/home/u") ≡ true)
unfolding Config.parse Config.parse_document Config.read_roots Config.read_root Config.is_root_name
    Config.raw_path Config.resolve_path Config.expand_home forward.Prelude.Text-discrete
    Config.add_root
parse-ok_example = parse-ok (codes "/home/u") (Config.source_table table) roots refl
