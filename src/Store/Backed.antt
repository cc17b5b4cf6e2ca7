-- ===== src/Store/Backed.antt =====
-- What a directory lists of a key (crates/secrets/src/store.rs): the files that back it, and the
-- candidates that one listing has.
use forward.Prelude.{
  ◌≡◌, refl, sym, ap, ◌∙◌, Bool, true, false, Option, none, some, List, [], ◌∷◌, ◌++◌, arith,
  if◌then◌else◌, Text, text_eq, inl, inr,
}
use mathlib.Core.Path.{subst}
use mathlib.Core.List.{Memᴰ}
use mathlib.Core.List.Memᴰ as Memᴰ
use forward.ErrCode.{ok, ◌>>=◌, ok_of_bind}
use forward.Names.{HumanFileName, ignored, key, invalid, parse_human_file_name}
use forward.Store.{
  HumanSource, DirEntry, broken, named, Listing, entries, Candidate, classified, human_file_name,
  read_entry, local_label, candidate_of, candidates_in,
}

-- A file of a source's directory that is named after a key: the candidate that it is.
pub data Backs (read_dir : Text → Listing) (sources : List HumanSource) (name : Text)
    : Candidate → Type 0 where
  backed :
      {source : HumanSource} {es : List DirEntry} {text : Text} {is_local : Bool}
      → Memᴰ source sources
      → read_dir source.dir ≡ entries es
      → Memᴰ (named (some text)) es
      → parse_human_file_name text ≡ key name is_local
      → Backs read_dir sources name
          (record { label = local_label source.label is_local; dir = source.dir; file_name = text })

abbrev pub found_as : Text → Bool → HumanSource → Candidate
found_as text is_local source = record {
  label = local_label source.label is_local;
  dir = source.dir;
  file_name = text;
}

sole_member {ℓ} :
    {A : Type ℓ} (b : Bool) (c x : A) → Memᴰ c (if b then x ∷ [] else []) → (b ≡ true) × (c ≡ x)
sole_member true c x (Memᴰ.head e) = (refl, e)
sole_member true c x (Memᴰ.tail m) = elim m [ ]
sole_member false c x m = elim m [ ]

pub ok-injective {ℓ} : {A : Type ℓ} (a b : A) → ok a ≡ ok b → a ≡ b
ok-injective a b h = cc h

module _ (source : HumanSource) (name : Text) where
  classified_sound :
      (text : Text) (file : HumanFileName) (o : Option (Text × Bool × Text)) (c : Candidate)
      → classified text file ≡ ok o
      → Memᴰ c (candidate_of source name o)
      → (is_local : Bool) × (file ≡ key name is_local) × (c ≡ found_as text is_local source)
  unfolding classified candidate_of
  classified_sound text ignored none c h m = elim m [ ]
  classified_sound text ignored (some x) c h m = absurd (cc h)
  classified_sound text invalid o c h m = absurd (cc h)
  classified_sound text (key n is_local) none c h m = absurd (cc h)
  classified_sound text (key n is_local) (some (n', is_local', text')) c h m =
      let (is_name, same) = sole_member (text_eq n' name) c (found_as text' is_local' source) m in
      let n≡name : n ≡ name = ground arith in
      let local_same : is_local ≡ is_local' = ground arith in
      let text_same : text' ≡ text = ground arith in
      (
        is_local,
        ap (λ t. key t is_local) n≡name,
        same
            ∙ ap (λ t. found_as t is_local' source) text_same
            ∙ ap (λ b. found_as text b source) (sym local_same),
      )

  classified_complete :
      (text : Text) (is_local : Bool)
      → candidate_of source name (some (name, is_local, text)) ≡ found_as text is_local source ∷ []
  unfolding candidate_of
  classified_complete text is_local = ground arith

  -- What one entry adds.
  entry_sound :
      (e : DirEntry) (o : Option (Text × Bool × Text)) (c : Candidate)
      → read_entry e ≡ ok o
      → Memᴰ c (candidate_of source name o)
      → (text : Text) × (is_local : Bool) × (e ≡ named (some text))
        × (parse_human_file_name text ≡ key name is_local)
        × (c ≡ found_as text is_local source)
  unfolding read_entry human_file_name candidate_of
  entry_sound broken o c h m = absurd (cc h)
  entry_sound (named none) none c h m = elim m [ ]
  entry_sound (named none) (some x) c h m = absurd (cc h)
  entry_sound (named (some text)) o c h m =
      let (is_local, file, same) = classified_sound text (parse_human_file_name text) o c h m in
      (text, is_local, refl, file, same)

  sole_complete :
      (text : Text) (is_local : Bool) (o : Option (Text × Bool × Text))
      → classified text (key name is_local) ≡ ok o
      → Memᴰ (found_as text is_local source) (candidate_of source name o)
  unfolding classified candidate_of
  sole_complete text is_local o h =
      subst (λ o. Memᴰ (found_as text is_local source) (candidate_of source name o))
        (ok-injective (some (name, is_local, text)) o h)
        (subst (λ cs. Memᴰ (found_as text is_local source) cs)
          (sym (classified_complete text is_local)) (Memᴰ.head refl))

  in_step :
      (e : DirEntry) (es : List DirEntry) (cs : List Candidate)
      → candidates_in source name (e ∷ es) ≡ ok cs
      → (o : Option (Text × Bool × Text)) × (rest : List Candidate) × (read_entry e ≡ ok o)
        × (candidates_in source name es ≡ ok rest)
        × (cs ≡ candidate_of source name o ++ rest)
  unfolding candidates_in
  in_step e es cs h =
      let (o, read, more) =
        ok_of_bind (read_entry e)
          (λ o. candidates_in source name es >>= λ rest. ok (candidate_of source name o ++ rest))
          h in
      let (rest, below, same) =
        ok_of_bind (candidates_in source name es) (λ rest. ok (candidate_of source name o ++ rest))
          more in
      (o, rest, read, below, ground arith)

  -- The candidates of a listing are its files that are named after the key.
  pub in_sound :
      (es : List DirEntry) (cs : List Candidate) (c : Candidate)
      → candidates_in source name es ≡ ok cs
      → Memᴰ c cs
      → (text : Text) × (is_local : Bool) × Memᴰ (named (some text)) es
        × (parse_human_file_name text ≡ key name is_local)
        × (c ≡ found_as text is_local source)
  unfolding candidates_in
  in_sound [] cs c h m = elim (subst (λ l. Memᴰ c l) (sym (ok-injective [] cs h)) m) [ ]
  in_sound (e ∷ es) cs c h m =
      let (o, rest, read, below, split) = in_step e es cs h in
      elim (Memᴰ.append_cases (candidate_of source name o) (subst (λ l. Memᴰ c l) split m)) [
        | inl here ↦
            let (text, is_local, is_e, file, same) = entry_sound e o c read here in
            (text, is_local, Memᴰ.head (sym is_e), file, same)
        | inr there ↦
            let (text, is_local, member, file, same) = in_sound es rest c below there in
            (text, is_local, Memᴰ.tail member, file, same)
      ]

  pub in_complete :
      (es : List DirEntry) (cs : List Candidate) (text : Text) (is_local : Bool)
      → candidates_in source name es ≡ ok cs
      → Memᴰ (named (some text)) es
      → parse_human_file_name text ≡ key name is_local
      → Memᴰ (found_as text is_local source) cs
  unfolding read_entry human_file_name
  in_complete [] cs text is_local h m file = elim m [ ]
  in_complete (e ∷ es) cs text is_local h (Memᴰ.head same) file =
      let (o, rest, read, below, split) = in_step e es cs h in
      let is_classified : classified text (key name is_local) ≡ ok o =
        ap (classified text) (sym file) ∙ ap read_entry same ∙ read in
      subst (λ l. Memᴰ (found_as text is_local source) l) (sym split)
        (Memᴰ.append_left rest (sole_complete text is_local o is_classified))
  in_complete (e ∷ es) cs text is_local h (Memᴰ.tail m) file =
      let (o, rest, read, below, split) = in_step e es cs h in
      subst (λ l. Memᴰ (found_as text is_local source) l) (sym split)
        (Memᴰ.append_right (candidate_of source name o)
          (in_complete es rest text is_local below m file))
