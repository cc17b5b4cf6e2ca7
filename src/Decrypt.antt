-- ===== src/Decrypt.antt =====
-- crates/secrets/src/decrypt.rs and decrypt/classify.rs: one run of sops. What the system does is an
-- argument: whether the socket is there and the probe answers, whether sops starts, and what each
-- round of the loop finds. The label of a failure is the text that the log gets.
pub mod Laws
use forward.Prelude.{
  ℕ, Bool, true, false, not, ◌&&◌, ◌||◌, Option, none, some, List, [], ◌∷◌, leb, ◌==◌,
  if◌then◌else◌, Text, text_eq, codes, any, strip_prefix, is_some, checked_add,
}
use forward.ErrCode.{ErrCode, Result, ok, err, internal, timeout, yubikey_unreachable, ◌>>=◌}
use forward.Names.Assignment.{parse_single_assignment}
use forward.Grants.Table.{FileIdentity}
use forward.Store.{Listing, HumanSource, Opener, OpenedHumanFile, open_file}
use forward.Opener.Url.{to_ascii_lowercase}

-- Whether one of the windows of a text is another.
abbrev pub contains_subslice : Text → Text → Bool
contains_subslice [] needle = is_some (strip_prefix needle [])
contains_subslice (c ∷ s) needle =
    let rest = contains_subslice s needle in is_some (strip_prefix needle (c ∷ s)) || rest

pub record Signature : Type 0 where
  pub needle : Text
  pub label : Text

abbrev signature : Text → Text → Signature
signature needle label = record { needle = needle; label = label }

abbrev pub sops_stderr_signatures : List Signature
sops_stderr_signatures =
    signature (codes "failed to decrypt yubikey stanza") (codes "yubikey-stanza-undecryptable")
    ∷ signature (codes "yubikey plugin") (codes "yubikey-plugin-error")
    ∷ signature (codes "pc/sc error") (codes "pcsc-communication-error")
    ∷ signature (codes "no identity matched") (codes "no-matching-identity")
    ∷ signature (codes "sops metadata not found") (codes "missing-sops-metadata")
    ∷ signature (codes "no such file or directory") (codes "input-unreadable")
    ∷ signature (codes "permission denied") (codes "input-permission-denied")
    ∷ signature (codes "failed to get the data key") (codes "data-key-unavailable")
    ∷ []

abbrev pub first_label : Text → List Signature → Text
first_label lowered [] = codes "unclassified"
first_label lowered (s ∷ signatures) =
    let rest = first_label lowered signatures in
    if contains_subslice lowered s.needle then s.label else rest

unfoldable pub classify_sops_stderr : Text → Text
classify_sops_stderr stderr = first_label (to_ascii_lowercase stderr) sops_stderr_signatures

abbrev pub contains_text : Text → List Text → Bool
contains_text text = any (λ t. text_eq t text)

abbrev pub unreachable_failure_labels : List Text
unreachable_failure_labels = codes "yubikey-plugin-error" ∷ codes "pcsc-communication-error" ∷ []

abbrev pub untouched_failure_labels : List Text
untouched_failure_labels = codes "yubikey-stanza-undecryptable" ∷ []

unfoldable pub failure_code : Text → ErrCode
failure_code label =
    if contains_text label unreachable_failure_labels
    then yubikey_unreachable
    else if contains_text label untouched_failure_labels
    then timeout
    else internal

-- What a probe's round finds.
pub data ProbeRound : Type 0 where
  probe_exited : Bool → ProbeRound
  probe_runs : ℕ → ProbeRound
  probe_lost : ProbeRound

-- The loop of `YubikeyProbe::responds`. `none`: the rounds given end before it does.
unfoldable pub probe_rounds : ℕ → List ProbeRound → Option Bool
probe_rounds deadline [] = none
probe_rounds deadline (probe_exited success ∷ rounds) = some success
probe_rounds deadline (probe_lost ∷ rounds) = some false
probe_rounds deadline (probe_runs now ∷ rounds) =
    let rest = probe_rounds deadline rounds in if leb deadline now then some false else rest

-- `PcscReachability::is_reachable`: no socket is configured, or it exists and the probe, if there is
-- one, responds.
unfoldable pub is_reachable : Option Bool → Option Bool → Bool
is_reachable none probe = true
is_reachable (some exists) none = exists
is_reachable (some exists) (some responds) = exists && responds

-- What a round of the loop finds of the child: it runs on at a time, it cannot be asked, or it exited,
-- with whether it succeeded, what it wrote to its error stream, if that can be read, and what it wrote
-- out, if that can be.
pub data Round : Type 0 where
  runs : ℕ → Round
  lost : Round
  exited : Bool → Option Text → Option Text → Round

pub record DecryptedHumanFile : Type 0 where
  pub source : Text
  pub identity : FileIdentity
  pub value : Text

abbrev pub failure_label : Option Text → Text
failure_label none = codes "stderr-unreadable"
failure_label (some stderr) = classify_sops_stderr stderr

unfoldable pub read_value : OpenedHumanFile → Text → Option Text → Result DecryptedHumanFile
read_value file key none = err internal
read_value file key (some stdout) = do
  value ← parse_single_assignment stdout key
  ok (record { source = file.label; identity = file.identity; value = value })

-- What is done with a child that exited.
unfoldable pub finish_child :
    OpenedHumanFile → Text → Bool → Option Text → Option Text → Result DecryptedHumanFile
finish_child file key success stderr stdout =
    if success then read_value file key stdout else err (failure_code (failure_label stderr))

-- The loop. `none`: the rounds given end before it does.
unfoldable pub wait_rounds :
    OpenedHumanFile → Text → ℕ → List Round → Option (Result DecryptedHumanFile)
wait_rounds file key deadline [] = none
wait_rounds file key deadline (lost ∷ rounds) = some (err internal)
wait_rounds file key deadline (exited success stderr stdout ∷ rounds) =
    some (finish_child file key success stderr stdout)
wait_rounds file key deadline (runs now ∷ rounds) =
    let rest = wait_rounds file key deadline rounds in
    if leb deadline now then some (err timeout) else rest

unfoldable pub wait_until :
    OpenedHumanFile → Text → Option ℕ → List Round → Option (Result DecryptedHumanFile)
wait_until file key none rounds = some (err internal)
wait_until file key (some deadline) rounds = wait_rounds file key deadline rounds

-- Whether sops starts for a descriptor of the file, and when.
unfoldable pub wait_started :
    OpenedHumanFile → Text → ℕ → Option ℕ → List Round → Option (Result DecryptedHumanFile)
wait_started file key limit none rounds = some (err internal)
wait_started file key limit (some started) rounds =
    wait_until file key (checked_add started limit) rounds

unfoldable pub decrypt_file :
    Text → ℕ → Option ℕ → List Round → Result OpenedHumanFile → Option (Result DecryptedHumanFile)
decrypt_file key limit started rounds (err e) = some (err e)
decrypt_file key limit started rounds (ok file) = wait_started file key limit started rounds

-- `Decryptor::decrypt_opened_with_start`
unfoldable pub decrypt_opened :
    (Text → Listing)
    → Opener
    → List HumanSource
    → Bool
    → ℕ
    → Option ℕ
    → List Round
    → Text
    → Option (Result DecryptedHumanFile)
decrypt_opened read_dir opener sources reachable limit started rounds key =
    if reachable
    then decrypt_file key limit started rounds (open_file read_dir opener sources key)
    else some (err yubikey_unreachable)
