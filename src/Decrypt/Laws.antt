-- ===== src/Decrypt/Laws.antt =====
-- What crates/secrets/src/decrypt.rs answers, and that it answers.
use forward.Prelude.{
  ℕ, ◌+◌, ◌≤◌, ◌≡◌, refl, sym, ap, ◌∙◌, ◌⊎◌, Bool, true, false, not, ◌&&◌, ◌||◌, Option, none, some,
  List, [], ◌∷◌, ◌++◌, arith, leb, ◌==◌, if◌then◌else◌, Text, text_eq, codes, checked_add,
  Bool-cases, Option-cases, inl, inr,
}
use mathlib.Core.List.{Memᴰ}
use forward.ErrCode.{Result, ok, err, internal, timeout, yubikey_unreachable, ok_of_bind}
use forward.Names.Assignment.{parse_single_assignment}
use forward.Store.{Listing, HumanSource, Opener, OpenedHumanFile, open_file}
use forward.Opener.Url.{to_ascii_lowercase}
use forward.Decrypt.{
  contains_subslice, classify_sops_stderr, failure_code, Round, runs, lost, exited,
  DecryptedHumanFile, read_value, finish_child, wait_rounds, wait_until, wait_started, decrypt_file,
  decrypt_opened,
}

abbrev labelled : Bool → Bool → Bool → Bool → Bool → Bool → Bool → Bool → Text
labelled a b c d e f g h =
    if a
    then codes "yubikey-stanza-undecryptable"
    else if b
    then codes "yubikey-plugin-error"
    else if c
    then codes "pcsc-communication-error"
    else if d
    then codes "no-matching-identity"
    else if e
    then codes "missing-sops-metadata"
    else if f
    then codes "input-unreadable"
    else if g
    then codes "input-permission-denied"
    else if h
    then codes "data-key-unavailable"
    else codes "unclassified"

by_signatures :
    (a b c d e f g h : Bool)
    → failure_code (labelled a b c d e f g h)
      ≡ (if a then timeout else if b || c then yubikey_unreachable else internal)
unfolding failure_code forward.Prelude.Text-discrete
by_signatures true b c d e f g h = refl
by_signatures false true c d e f g h = refl
by_signatures false false true d e f g h = refl
by_signatures false false false true e f g h = refl
by_signatures false false false false true f g h = refl
by_signatures false false false false false true g h = refl
by_signatures false false false false false false true h = refl
by_signatures false false false false false false false true = refl
by_signatures false false false false false false false false = refl

-- The code that a caller gets for what sops wrote to its error stream: TIMEOUT where a stanza of the
-- hardware key was not decrypted, for nobody touched the key; YUBIKEY_UNREACHABLE where, else, the
-- plugin or the smart card service failed; INTERNAL for everything else, whatever else was written.
pub failure_code-classify :
    (stderr : Text)
    → failure_code (classify_sops_stderr stderr) ≡ (
        if contains_subslice (to_ascii_lowercase stderr) (codes "failed to decrypt yubikey stanza")
        then timeout
        else if contains_subslice (to_ascii_lowercase stderr) (codes "yubikey plugin")
            || contains_subslice (to_ascii_lowercase stderr) (codes "pc/sc error")
        then yubikey_unreachable
        else internal)
unfolding classify_sops_stderr
failure_code-classify stderr =
    let lowered = to_ascii_lowercase stderr in
    by_signatures (contains_subslice lowered (codes "failed to decrypt yubikey stanza"))
      (contains_subslice lowered (codes "yubikey plugin"))
      (contains_subslice lowered (codes "pc/sc error"))
      (contains_subslice lowered (codes "no identity matched"))
      (contains_subslice lowered (codes "sops metadata not found"))
      (contains_subslice lowered (codes "no such file or directory"))
      (contains_subslice lowered (codes "permission denied"))
      (contains_subslice lowered (codes "failed to get the data key"))

read_value-ok :
    (file : OpenedHumanFile) (key : Text) (stdout : Option Text) (d : DecryptedHumanFile)
    → read_value file key stdout ≡ ok d
    → (text : Text) × (stdout ≡ some text)
      × (parse_single_assignment text key ≡ ok d.value)
      × (d.source ≡ file.label)
      × (d.identity ≡ file.identity)
unfolding read_value
read_value-ok file key none d h = absurd (cc h)
read_value-ok file key (some text) d h =
    let (value, parsed, same) =
      ok_of_bind (parse_single_assignment text key)
        (λ value. ok (record { source = file.label; identity = file.identity; value = value })) h in
    (text, refl, parsed ∙ ap ok (ground arith), ground arith, ground arith)

-- A round in which sops exited, successfully, with its output.
wait_rounds-ok :
    (file : OpenedHumanFile) (key : Text) (deadline : ℕ) (rounds : List Round)
    (d : DecryptedHumanFile)
    → wait_rounds file key deadline rounds ≡ some (ok d)
    → (stderr : Option Text) × (stdout : Text) × Memᴰ (exited true stderr (some stdout)) rounds
      × (parse_single_assignment stdout key ≡ ok d.value)
      × (d.source ≡ file.label)
      × (d.identity ≡ file.identity)
unfolding wait_rounds finish_child
wait_rounds-ok file key deadline [] d h = absurd (cc h)
wait_rounds-ok file key deadline (lost ∷ rounds) d h = absurd (cc h)
wait_rounds-ok file key deadline (exited false stderr stdout ∷ rounds) d h = absurd (cc h)
wait_rounds-ok file key deadline (exited true stderr stdout ∷ rounds) d h =
    let (text, is_text, parsed, source, identity) = read_value-ok file key stdout d (cc h) in
    (stderr, text, Memᴰ.head (ap (exited true stderr) (sym is_text)), parsed, source, identity)
wait_rounds-ok file key deadline (runs now ∷ rounds) d h = elim (Bool-cases (leb deadline now)) [
  | inl late ↦ absurd (no (sym (rw late refl) ∙ h))
  | inr early ↦
      let (stderr, text, member, parsed, source, identity) =
        wait_rounds-ok file key deadline rounds d (sym (rw early refl) ∙ h) in
      (stderr, text, Memᴰ.tail member, parsed, source, identity)
]
  where
    no : Path (Option (Result DecryptedHumanFile)) (some (err timeout)) (some (ok d)) → ⊥
    no k = cc k

-- What a decrypt hands on is the value that sops wrote for that key, from the one file that the store
-- opens for it: sops exited successfully in one of the rounds, with a text that assigns the value to
-- the key and to nothing else, and the source and the identity are those of the file. The hardware was
-- reachable.
pub decrypt_opened-ok :
    (read_dir : Text → Listing) (opener : Opener) (sources : List HumanSource) (reachable : Bool)
    (limit : ℕ) (started : Option ℕ) (rounds : List Round) (key : Text) (d : DecryptedHumanFile)
    → decrypt_opened read_dir opener sources reachable limit started rounds key ≡ some (ok d)
    → (reachable ≡ true)
      × (file : OpenedHumanFile) × (open_file read_dir opener sources key ≡ ok file)
      × (stderr : Option Text) × (stdout : Text) × Memᴰ (exited true stderr (some stdout)) rounds
      × (parse_single_assignment stdout key ≡ ok d.value)
      × (d.source ≡ file.label)
      × (d.identity ≡ file.identity)
unfolding decrypt_opened decrypt_file wait_started wait_until
decrypt_opened-ok read_dir opener sources false limit started rounds key d h = absurd (cc h)
decrypt_opened-ok read_dir opener sources true limit started rounds key d h =
    let (file, is_file, more) = of_file (open_file read_dir opener sources key) h in
    let (stderr, stdout, member, parsed, source, identity) = of_start file started more in
    (refl, file, is_file, stderr, stdout, member, parsed, source, identity)
  where
    of_file :
        (r : Result OpenedHumanFile)
        → decrypt_file key limit started rounds r ≡ some (ok d)
        → (file : OpenedHumanFile) × (r ≡ ok file)
          × (wait_started file key limit started rounds ≡ some (ok d))
    of_file (err e) k = absurd (cc k)
    of_file (ok file) k = (file, refl, k)

    of_deadline :
        (file : OpenedHumanFile) (o : Option ℕ)
        → wait_until file key o rounds ≡ some (ok d)
        → (stderr : Option Text) × (stdout : Text) × Memᴰ (exited true stderr (some stdout)) rounds
          × (parse_single_assignment stdout key ≡ ok d.value)
          × (d.source ≡ file.label)
          × (d.identity ≡ file.identity)
    of_deadline file none k = absurd (cc k)
    of_deadline file (some deadline) k = wait_rounds-ok file key deadline rounds d k

    of_start :
        (file : OpenedHumanFile) (o : Option ℕ)
        → wait_started file key limit o rounds ≡ some (ok d)
        → (stderr : Option Text) × (stdout : Text) × Memᴰ (exited true stderr (some stdout)) rounds
          × (parse_single_assignment stdout key ≡ ok d.value)
          × (d.source ≡ file.label)
          × (d.identity ≡ file.identity)
    of_start file none k = absurd (cc k)
    of_start file (some begun) k = of_deadline file (checked_add begun limit) k

wait_rounds_end :
    (file : OpenedHumanFile) (key : Text) (deadline now : ℕ) (rounds : List Round)
    → Memᴰ (runs now) rounds
    → deadline ≤ now
    → (r : Result DecryptedHumanFile) × (wait_rounds file key deadline rounds ≡ some r)
unfolding wait_rounds
wait_rounds_end file key deadline now [] m late = elim m [ ]
wait_rounds_end file key deadline now (lost ∷ rounds) m late = (err internal, refl)
wait_rounds_end file key deadline now (exited success stderr stdout ∷ rounds) m late =
    (finish_child file key success stderr stdout, refl)
wait_rounds_end file key deadline now (runs then_ ∷ rounds) m late =
    elim (Bool-cases (leb deadline then_)) [
      | inl over ↦ (err timeout, rw over refl)
      | inr early ↦
          let (r, ends) = wait_rounds_end file key deadline now rounds (further m early) late in
          (r, rw early ends)
    ]
  where
    further :
        Memᴰ (runs now) (runs then_ ∷ rounds) → leb deadline then_ ≡ false → Memᴰ (runs now) rounds
    further (Memᴰ.tail k) e = k
    further (Memᴰ.head same) e = absurd (apart (cc same) e)
      where
        apart : now ≡ then_ → leb deadline then_ ≡ false → ⊥
        apart q f = ground arith

-- A decrypt answers by its deadline: where some round comes once the time that sops is given has
-- passed since its start, the loop has ended by then, with a result or an error.
pub decrypt_ends :
    (read_dir : Text → Listing) (opener : Opener) (sources : List HumanSource) (reachable : Bool)
    (limit begun now : ℕ) (rounds : List Round) (key : Text)
    → Memᴰ (runs now) rounds
    → begun + limit ≤ now
    → (r : Result DecryptedHumanFile) × (decrypt_opened read_dir opener sources reachable limit
          (some begun)
          rounds
          key
        ≡ some r)
unfolding decrypt_opened decrypt_file wait_started wait_until
decrypt_ends read_dir opener sources false limit begun now rounds key m late =
    (err yubikey_unreachable, refl)
decrypt_ends read_dir opener sources true limit begun now rounds key m late =
    of_file (open_file read_dir opener sources key)
  where
    of_deadline :
        (file : OpenedHumanFile) (o : Option ℕ)
        → checked_add begun limit ≡ o
        → (r : Result DecryptedHumanFile) × (wait_until file key o rounds ≡ some r)
    of_deadline file none e = (err internal, refl)
    of_deadline file (some deadline) e =
        wait_rounds_end file key deadline now rounds m (ground arith)

    of_file :
        (f : Result OpenedHumanFile)
        → (r : Result DecryptedHumanFile) × (decrypt_file key limit (some begun) rounds f ≡ some r)
    of_file (err e) = (err e, refl)
    of_file (ok file) = of_deadline file (checked_add begun limit) refl
