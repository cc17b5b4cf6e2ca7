-- ===== src/Store/Laws.antt =====
-- The candidates of a key in all the directories of crates/secrets/src/store.rs, against the files
-- that back it.
use forward.Prelude.{
  ◌≡◌, refl, sym, ap, ◌∙◌, ◌↔◌, Bool, Option, none, some, List, [], ◌∷◌, ◌++◌, arith, Text, inl,
  inr,
}
use mathlib.Core.Path.{subst}
use mathlib.Core.List.{Memᴰ}
use mathlib.Core.List.Memᴰ as Memᴰ
use forward.ErrCode.{ok, ◌>>=◌, ok_of_bind}
use forward.Names.{key, parse_human_file_name}
use forward.Store.{
  HumanSource, DirEntry, named, Listing, entries, not_found, unreadable, Candidate,
  directory_entries, candidates_in, listed, candidates,
}
use forward.Store.Backed.{Backs, found_as, ok-injective, in_sound, in_complete, backed}

module _ (read_dir : Text → Listing) (name : Text) where
  sources_step :
      (source : HumanSource) (sources : List HumanSource) (cs : List Candidate)
      → candidates read_dir (source ∷ sources) name ≡ ok cs
      → (es : Option (List DirEntry)) × (here : List Candidate) × (rest : List Candidate)
        × (directory_entries (read_dir source.dir) ≡ ok es)
        × (listed source name es ≡ ok here)
        × (candidates read_dir sources name ≡ ok rest)
        × (cs ≡ here ++ rest)
  unfolding candidates
  sources_step source sources cs h =
      let (es, read, more) =
        ok_of_bind (directory_entries (read_dir source.dir))
          (λ es. listed source name es >>= λ here.
            candidates read_dir sources name >>= λ rest. ok (here ++ rest))
          h in
      let (here, found, more') =
        ok_of_bind (listed source name es)
          (λ here. candidates read_dir sources name >>= λ rest. ok (here ++ rest)) more in
      let (rest, below, same) =
        ok_of_bind (candidates read_dir sources name) (λ rest. ok (here ++ rest)) more' in
      (es, here, rest, read, found, below, ground arith)

  directory_entries-some :
      (listing : Listing) (es : List DirEntry)
      → directory_entries listing ≡ ok (some es)
      → listing ≡ entries es
  unfolding directory_entries
  directory_entries-some not_found es h = absurd (cc h)
  directory_entries-some unreadable es h = absurd (cc h)
  directory_entries-some (entries es') es h = cc h

  listed_sound :
      (source : HumanSource) (o : Option (List DirEntry)) (here : List Candidate) (c : Candidate)
      → listed source name o ≡ ok here
      → Memᴰ c here
      → (es : List DirEntry) × (o ≡ some es) × (candidates_in source name es ≡ ok here)
  unfolding listed
  listed_sound source none here c h m =
      elim (subst (λ l. Memᴰ c l) (sym (ok-injective [] here h)) m) [ ]
  listed_sound source (some es) here c h m = (es, refl, h)

  weaken :
      (source : HumanSource) (sources : List HumanSource) (c : Candidate)
      → Backs read_dir sources name c
      → Backs read_dir (source ∷ sources) name c
  weaken source sources c (backed m listing e file) = backed (Memᴰ.tail m) listing e file

  candidates_sound :
      (sources : List HumanSource) (cs : List Candidate) (c : Candidate)
      → candidates read_dir sources name ≡ ok cs
      → Memᴰ c cs
      → Backs read_dir sources name c
  unfolding candidates
  candidates_sound [] cs c h m = elim (subst (λ l. Memᴰ c l) (sym (ok-injective [] cs h)) m) [ ]
  candidates_sound (source ∷ sources) cs c h m =
      let (o, here, rest, read, found, below, split) = sources_step source sources cs h in
      elim (Memᴰ.append_cases here (subst (λ l. Memᴰ c l) split m)) [
        | inl near ↦
            let (es, is_some, scanned) = listed_sound source o here c found near in
            let (text, is_local, member, file, same) =
              in_sound source name es here c scanned near in
            let listing =
              directory_entries-some (read_dir source.dir) es (read ∙ ap (λ o. ok o) is_some) in
            subst (λ c. Backs read_dir (source ∷ sources) name c) (sym same)
              (backed (Memᴰ.head refl) listing member file)
        | inr far ↦ weaken source sources c (candidates_sound sources rest c below far)
      ]

  here_complete :
      (source : HumanSource) (sources : List HumanSource) (cs : List Candidate) (es : List DirEntry)
      (text : Text) (is_local : Bool)
      → candidates read_dir (source ∷ sources) name ≡ ok cs
      → read_dir source.dir ≡ entries es
      → Memᴰ (named (some text)) es
      → parse_human_file_name text ≡ key name is_local
      → Memᴰ (found_as text is_local source) cs
  unfolding directory_entries listed
  here_complete source sources cs es text is_local h listing member file =
      let (o, here, rest, read, found, below, split) = sources_step source sources cs h in
      let is_some : some es ≡ o =
        ok-injective (some es) o (sym (ap directory_entries listing) ∙ read) in
      let scanned : candidates_in source name es ≡ ok here =
        ap (listed source name) is_some ∙ found in
      subst (λ l. Memᴰ (found_as text is_local source) l) (sym split)
        (Memᴰ.append_left rest (in_complete source name es here text is_local scanned member file))

  candidates_complete :
      (sources : List HumanSource) (cs : List Candidate) (c : Candidate)
      → candidates read_dir sources name ≡ ok cs
      → Backs read_dir sources name c
      → Memᴰ c cs
  unfolding candidates
  candidates_complete [] cs c h (backed m listing e file) = elim m [ ]
  candidates_complete (source ∷ sources) cs c h (backed (Memᴰ.tail m) listing e file) =
      let (o, here, rest, read, found, below, split) = sources_step source sources cs h in
      subst (λ l. Memᴰ c l) (sym split)
        (Memᴰ.append_right here
          (candidates_complete sources rest c below (backed m listing e file)))
  candidates_complete (source ∷ sources) cs c h
        (backed {source = s'} {es = es} {text = text} {is_local = is_local}
          (Memᴰ.head same)
          listing
          member
          file) =
      let near =
        here_complete source sources cs es text is_local h
          (ap (λ s. read_dir s.dir) (sym same) ∙ listing) member file in
      subst (λ s. Memᴰ (found_as text is_local s) cs) (sym same) near

-- Where a search succeeds, its candidates are the files that back the key: those of the sources'
-- directories whose names are the key's, committed or machine-local, with the source's label and
-- directory, and no others.
pub candidates_iff :
    (read_dir : Text → Listing) (sources : List HumanSource) (name : Text) (cs : List Candidate)
    (c : Candidate)
    → candidates read_dir sources name ≡ ok cs
    → Memᴰ c cs ↔ Backs read_dir sources name c
candidates_iff read_dir sources name cs c h = (
  candidates_sound read_dir name sources cs c h,
  candidates_complete read_dir name sources cs c h,
)
