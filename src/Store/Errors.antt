-- ===== src/Store/Errors.antt =====
-- How a search of crates/secrets/src/store.rs fails, and what `locate` answers.
use forward.Prelude.{
  ◌≡◌, refl, sym, ap, ◌∙◌, ◌⊎◌, ◌↔◌, Option, none, some, List, [], ◌∷◌, ◌++◌, Text, inl, inr,
}
use mathlib.Core.Path.{subst}
use mathlib.Core.List.{Memᴰ}
use mathlib.Core.List.Memᴰ as Memᴰ
use forward.ErrCode.{Result, ok, err, internal, not_human_key, ambiguous_key, ◌>>=◌}
use forward.Names.{HumanFileName, ignored, key, invalid, parse_human_file_name}
use forward.Store.{
  HumanSource, DirEntry, broken, named, Listing, entries, not_found, unreadable, Candidate,
  directory_entries, classified, human_file_name, read_entry, candidate_of, candidates_in, listed,
  candidates, sole, locate,
}
use forward.Store.Backed.{Backs}
use forward.Store.Laws.{candidates_iff}

-- An entry that cannot be read, or whose name is that of no key and yet not one to leave aside.
pub data IsFaulty : DirEntry → Type 0 where
  lost : IsFaulty broken
  misnamed : {text : Text} → parse_human_file_name text ≡ invalid → IsFaulty (named (some text))

-- What makes a search fail: a directory that exists and cannot be listed, or a faulty entry.
pub data HasFault (read_dir : Text → Listing) (sources : List HumanSource) : Type 0 where
  unlisted :
      {source : HumanSource}
      → Memᴰ source sources
      → read_dir source.dir ≡ unreadable
      → HasFault read_dir sources
  faulty :
      {source : HumanSource} {es : List DirEntry} {e : DirEntry}
      → Memᴰ source sources
      → read_dir source.dir ≡ entries es
      → Memᴰ e es
      → IsFaulty e
      → HasFault read_dir sources

-- A result is an error, which is `internal`, or not.
abbrev FailsOnly {ℓ κ} : {A : Type ℓ} → Result A → Type κ → Type (ℓ ⊔ κ)
FailsOnly {A = A} r F = ((r ≡ err internal) × F) ⊎ ((a : A) × (r ≡ ok a))

classified_fails :
    (text : Text) (file : HumanFileName) → FailsOnly (classified text file) (file ≡ invalid)
unfolding classified
classified_fails text ignored = inr (none, refl)
classified_fails text invalid = inl (refl, refl)
classified_fails text (key name is_local) = inr (some (name, is_local, text), refl)

read_entry_fails : (e : DirEntry) → FailsOnly (read_entry e) (IsFaulty e)
unfolding read_entry human_file_name
read_entry_fails broken = inl (refl, lost)
read_entry_fails (named none) = inr (none, refl)
read_entry_fails (named (some text)) = elim (classified_fails text (parse_human_file_name text)) [
  | inl (failed, is_invalid) ↦ inl (failed, misnamed is_invalid)
  | inr (o, read) ↦ inr (o, read)
]

faulty_fails : (e : DirEntry) → IsFaulty e → read_entry e ≡ err internal
unfolding read_entry human_file_name classified
faulty_fails broken lost = refl
faulty_fails (named none) fault = elim fault [ ]
faulty_fails (named (some text)) (misnamed e) = ap (classified text) e

module _ (source : HumanSource) (name : Text) where
  in_fails :
      (es : List DirEntry)
      → FailsOnly (candidates_in source name es) ((e : DirEntry) × Memᴰ e es × IsFaulty e)
  unfolding candidates_in
  in_fails [] = inr ([], refl)
  in_fails (e ∷ es) = elim (read_entry_fails e) [
    | inl (failed, fault) ↦ inl (rw failed refl, (e, Memᴰ.head refl, fault))
    | inr (o, read) ↦ elim (in_fails es) [
      | inl (failed, (d, member, fault)) ↦
          inl (rw (read, failed) refl, (d, Memᴰ.tail member, fault))
      | inr (cs, found) ↦ inr (candidate_of source name o ++ cs, rw (read, found) refl)
    ]
  ]

  in_fails_back :
      (es : List DirEntry) (e : DirEntry)
      → Memᴰ e es
      → IsFaulty e
      → candidates_in source name es ≡ err internal
  unfolding candidates_in
  in_fails_back [] e m fault = elim m [ ]
  in_fails_back (d ∷ es) e (Memᴰ.head same) fault =
      rw (faulty_fails d (subst IsFaulty same fault)) refl
  in_fails_back (d ∷ es) e (Memᴰ.tail m) fault = elim (read_entry_fails d) [
    | inl (failed, other) ↦ rw failed refl
    | inr (o, read) ↦ rw (read, in_fails_back es e m fault) refl
  ]

module _ (read_dir : Text → Listing) (name : Text) where
  more_faults :
      (source : HumanSource) (sources : List HumanSource)
      → HasFault read_dir sources
      → HasFault read_dir (source ∷ sources)
  more_faults source sources (unlisted m e) = unlisted (Memᴰ.tail m) e
  more_faults source sources (faulty m e n f) = faulty (Memᴰ.tail m) e n f

  source_fails :
      (source : HumanSource) (sources : List HumanSource) (listing : Listing)
      → read_dir source.dir ≡ listing
      → FailsOnly
          (directory_entries listing >>= listed source name)
          (HasFault read_dir (source ∷ sources))
  unfolding directory_entries listed
  source_fails source sources not_found e = inr ([], refl)
  source_fails source sources unreadable e = inl (refl, unlisted (Memᴰ.head refl) e)
  source_fails source sources (entries es) e = elim (in_fails source name es) [
    | inl (failed, (d, member, fault)) ↦ inl (failed, faulty (Memᴰ.head refl) e member fault)
    | inr (cs, found) ↦ inr (cs, found)
  ]

  -- The source's part first, then the rest.
  candidates_split :
      (source : HumanSource) (sources : List HumanSource)
      → candidates read_dir (source ∷ sources) name ≡ (
          (directory_entries (read_dir source.dir) >>= listed source name) >>= λ here.
          candidates read_dir sources name >>= λ rest. ok (here ++ rest))
  unfolding candidates
  candidates_split source sources = assoc (directory_entries (read_dir source.dir))
    where
      assoc :
          (r : Result (Option (List DirEntry)))
          → (r >>= λ es. listed source name es >>= λ here.
              candidates read_dir sources name >>= λ rest. ok (here ++ rest))
            ≡ ((r >>= listed source name) >>= λ here.
                candidates read_dir sources name >>= λ rest. ok (here ++ rest))
      assoc (ok es) = refl
      assoc (err e) = refl

  candidates_fails :
      (sources : List HumanSource)
      → FailsOnly (candidates read_dir sources name) (HasFault read_dir sources)
  unfolding candidates
  candidates_fails [] = inr ([], refl)
  candidates_fails (source ∷ sources) =
      elim (source_fails source sources (read_dir source.dir) refl) [
        | inl (failed, fault) ↦ inl (candidates_split source sources ∙ rw failed refl, fault)
        | inr (here, found) ↦ elim (candidates_fails sources) [
          | inl (failed, fault) ↦ inl (
            candidates_split source sources ∙ rw (found, failed) refl,
            more_faults source sources fault,
          )
          | inr (rest, below) ↦
              inr (here ++ rest, candidates_split source sources ∙ rw (found, below) refl)
        ]
      ]

  source_fails_back :
      (source : HumanSource) (listing : Listing) (es : List DirEntry) (e : DirEntry)
      → listing ≡ entries es
      → Memᴰ e es
      → IsFaulty e
      → (directory_entries listing >>= listed source name) ≡ err internal
  unfolding directory_entries listed
  source_fails_back source listing es e is m fault = rw is (in_fails_back source name es e m fault)

  first_fails :
      (source : HumanSource) (sources : List HumanSource)
      → (directory_entries (read_dir source.dir) >>= listed source name) ≡ err internal
      → candidates read_dir (source ∷ sources) name ≡ err internal
  first_fails source sources failed = candidates_split source sources ∙ rw failed refl

  rest_fails :
      (source : HumanSource) (sources : List HumanSource)
      → candidates read_dir sources name ≡ err internal
      → candidates read_dir (source ∷ sources) name ≡ err internal
  rest_fails source sources failed = elim (source_fails source sources (read_dir source.dir) refl) [
    | inl (first, fault) ↦ first_fails source sources first
    | inr (here, found) ↦ candidates_split source sources ∙ rw (found, failed) refl
  ]

  candidates_fails_back :
      (sources : List HumanSource)
      → HasFault read_dir sources
      → candidates read_dir sources name ≡ err internal
  unfolding directory_entries
  candidates_fails_back [] (unlisted m e) = elim m [ ]
  candidates_fails_back [] (faulty m e n f) = elim m [ ]
  candidates_fails_back (source ∷ sources) (unlisted (Memᴰ.tail m) e) =
      rest_fails source sources (candidates_fails_back sources (unlisted m e))
  candidates_fails_back (source ∷ sources) (faulty (Memᴰ.tail m) e n f) =
      rest_fails source sources (candidates_fails_back sources (faulty m e n f))
  candidates_fails_back (source ∷ sources) (unlisted (Memᴰ.head same) e) =
      let here : read_dir source.dir ≡ unreadable = ap (λ s. read_dir s.dir) (sym same) ∙ e in
      first_fails source sources (rw here refl)
  candidates_fails_back (source ∷ sources) (faulty {es = es} {e = d} (Memᴰ.head same) e n f) =
      let here : read_dir source.dir ≡ entries es = ap (λ s. read_dir s.dir) (sym same) ∙ e in
      first_fails source sources (source_fails_back source (read_dir source.dir) es d here n f)

sole_not_internal : (cs : List Candidate) → (sole cs >>= λ c. ok c.label) ≡ err internal → ⊥
unfolding sole
sole_not_internal [] h = cc
sole_not_internal (c ∷ []) h = cc
sole_not_internal (c ∷ d ∷ cs) h = cc

-- `locate` answers INTERNAL exactly when the directories have a fault, for whatever key: a directory
-- that exists and cannot be listed, an entry that cannot be read, or a file whose name ends like a
-- key's and is no key's. One fault in one source refuses every key.
pub locate_internal_iff :
    (read_dir : Text → Listing) (sources : List HumanSource) (name : Text)
    → (locate read_dir sources name ≡ err internal) ↔ HasFault read_dir sources
unfolding locate
locate_internal_iff read_dir sources name = (
  λ h. elim (candidates_fails read_dir name sources) [
    | inl (failed, fault) ↦ fault
    | inr (cs, found) ↦ absurd (sole_not_internal cs (sym (rw found refl) ∙ h))
  ],
  λ fault. rw (candidates_fails_back read_dir name sources fault) refl,
)

-- What `locate` answers where the directories have no fault: by the files that back the key.
pub data Located (read_dir : Text → Listing) (sources : List HumanSource) (name : Text)
    : Result Text → Type 0 where
  -- No file backs the key.
  nowhere :
      ((c : Candidate) → Backs read_dir sources name c → ⊥)
      → Located read_dir sources name (err not_human_key)
  -- One file does, and the answer is its label.
  once :
      (c : Candidate)
      → Backs read_dir sources name c
      → ((d : Candidate) → Backs read_dir sources name d → d ≡ c)
      → Located read_dir sources name (ok c.label)
  -- The scan meets more than one.
  twice :
      (c d : Candidate) (rest : List Candidate)
      → candidates read_dir sources name ≡ ok (c ∷ d ∷ rest)
      → Backs read_dir sources name c
      → Backs read_dir sources name d
      → Located read_dir sources name (err ambiguous_key)

module _ (read_dir : Text → Listing) (sources : List HumanSource) (name : Text) where
  located :
      (cs : List Candidate)
      → candidates read_dir sources name ≡ ok cs
      → Located read_dir sources name (sole cs >>= λ c. ok c.label)
  unfolding sole
  located [] found =
      nowhere (λ c b. elim ((candidates_iff read_dir sources name [] c found).1 b) [ ])
  located (c ∷ []) found =
      once c ((candidates_iff read_dir sources name (c ∷ []) c found).0 (Memᴰ.head refl))
        (λ d b. Memᴰ.eq_of_singleton ((candidates_iff read_dir sources name (c ∷ []) d found).1 b))
  located (c ∷ d ∷ rest) found =
      twice c d rest found
        ((candidates_iff read_dir sources name (c ∷ d ∷ rest) c found).0 (Memᴰ.head refl))
        ((candidates_iff read_dir sources name (c ∷ d ∷ rest) d found).0
          (Memᴰ.tail (Memᴰ.head refl)))

  -- Where the directories have no fault, `locate` answers the label of the one file that backs the
  -- key; NOT_HUMAN_KEY where no file does; and AMBIGUOUS_KEY where the scan meets more than one.
  pub locate_answers :
      (HasFault read_dir sources → ⊥) → Located read_dir sources name (locate read_dir sources name)
  unfolding locate
  locate_answers clean = elim (candidates_fails read_dir name sources) [
    | inl (failed, fault) ↦ absurd (clean fault)
    | inr (cs, found) ↦
        subst (λ r. Located read_dir sources name (r >>= λ cs. sole cs >>= λ c. ok c.label))
          (sym found) (located cs found)
  ]
