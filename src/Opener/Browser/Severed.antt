-- ===== src/Opener/Browser/Severed.antt =====
-- What ends with a browser grant (crates/forward/src/browser/grant/lifetime.rs, pipes.rs): the pipes it
-- serves and its control channel.
use forward.Prelude.{
  ℕ, ◌≤◌, ◌<◌, ◌≡◌, refl, ap, ◌∙◌, ◌⊎◌, Bool, true, false, not, ◌&&◌, Option, none, some, List, [],
  ◌∷◌, ◌++◌, map, arith, ltb, ◌==◌, find, any, any-retain, find-retain-eq_none, retain,
  update_first, All, Bool-cases, inl, inr,
}
use mathlib.Core.Path.{subst}
use mathlib.Core.List.{Memᴰ}
use mathlib.Core.List.Memᴰ as Memᴰ
use forward.Opener.Browser.{
  BrokerIdentity, Grant, GrantEntry, PipeRow, Grants, empty, is_grant, is_row, insert, is_authority,
  insert_if_authority, all_handles, control_of, revoke_all, is_changed, observe_authority,
  invalidate_authority, row_handles, expire, live_entry, live, push_handle, push_row, register_pipe,
  forget, drop_guard,
}

-- Every pipe is of a grant that the registry has.
abbrev pub IsServed : Grants → Type 0
IsServed g = All (λ row. any (is_grant row.grant_id) g.grants ≡ true) g.pipes

abbrev Has : List GrantEntry → PipeRow → Type 0
Has grants row = any (is_grant row.grant_id) grants ≡ true

All-imp {ℓ κ μ} :
    {A : Type ℓ} (P : A → Type κ) (Q : A → Type μ) (xs : List A)
    → ((a : A) → P a → Q a)
    → All P xs
    → All Q xs
All-imp P Q [] f h = tt
All-imp P Q (x ∷ xs) f h = (f x h.0, All-imp P Q xs f h.1)

keeps_other :
    (q id : ℕ) (es : List GrantEntry)
    → (q == id) ≡ false
    → any (is_grant q) es ≡ true
    → any (is_grant q) (retain (λ e. not (is_grant id e)) es) ≡ true
keeps_other q id es other h =
    any-retain (is_grant q) (λ e. not (is_grant id e)) es (λ e k. ground arith) ∙ h

-- A new grant takes none of the others away.
insert-has :
    (q : ℕ) (fresh : GrantEntry) (es : List GrantEntry)
    → any (is_grant q) es ≡ true
    → any (is_grant q) (fresh ∷ retain (λ e. not (is_grant fresh.id e)) es) ≡ true
insert-has q fresh es h = elim (Bool-cases (q == fresh.id)) [
  | inl same ↦ ground arith
  | inr other ↦ let kept = keeps_other q fresh.id es other h in ground (arith, kept)
]

insert-IsServed :
    (cloned : Bool) (grant : Grant) (control : ℕ) (g : Grants)
    → IsServed g
    → IsServed (insert cloned grant control g).0
unfolding insert
insert-IsServed false grant control g h = h
insert-IsServed true grant control g h =
    let fresh : GrantEntry = record { id = g.next_id; grant = grant; control = control } in
    All-imp (Has g.grants) (Has (fresh ∷ retain (λ e. not (is_grant g.next_id e)) g.grants)) g.pipes
      (λ row k. insert-has row.grant_id fresh g.grants k) h

rows_left :
    (id : ℕ) (es : List GrantEntry) (rows : List PipeRow)
    → All (Has es) rows
    → All (Has (retain (λ e. not (is_grant id e)) es)) (retain (λ row. not (is_row id row)) rows)
rows_left id es [] h = tt
rows_left id es (row ∷ rows) h = elim (Bool-cases (is_row id row)) [
  | inl own ↦ rw own (rows_left id es rows h.1)
  | inr other ↦ rw other (keeps_other row.grant_id id es other h.0, rows_left id es rows h.1)
]

expire-IsServed : (id : ℕ) (g : Grants) → IsServed g → IsServed (expire id g)
unfolding expire
expire-IsServed id g h = rows_left id g.grants g.pipes h

update-rows :
    (id : ℕ) (f : PipeRow → PipeRow) (es : List GrantEntry) (rows : List PipeRow)
    → ((row : PipeRow) → (f row).grant_id ≡ row.grant_id)
    → All (Has es) rows
    → All (Has es) (update_first (is_row id) f rows)
update-rows id f es [] keeps h = tt
update-rows id f es (row ∷ rows) keeps h = elim (Bool-cases (is_row id row)) [
  | inl own ↦ rw own (ap (λ q. any (is_grant q) es) (keeps row) ∙ h.0, h.1)
  | inr other ↦ rw other (h.0, update-rows id f es rows keeps h.1)
]

register_pipe-IsServed :
    (cloned : Bool) (id : ℕ) (g : Grants) → IsServed g → IsServed (register_pipe cloned id g).0
unfolding register_pipe
register_pipe-IsServed cloned id g h = elim (Bool-cases (any (is_grant id) g.grants && cloned)) [
  | inr refused ↦ rw refused h
  | inl taken ↦
      let there : any (is_grant id) g.grants ≡ true = ground arith in
      rw taken (pushed there (Bool-cases (any (is_row id) g.pipes)))
]
  where
    pushed :
        any (is_grant id) g.grants ≡ true
        → (any (is_row id) g.pipes ≡ true) ⊎ (any (is_row id) g.pipes ≡ false)
        → All (Has g.grants) (push_row id g.next_id g.pipes)
    pushed there (inl old) =
        rw old (update-rows id (push_handle g.next_id) g.grants g.pipes (λ row. refl) h)
    pushed there (inr new_row) = rw new_row (there, h)

live-IsServed : (id now : ℕ) (g : Grants) → IsServed g → IsServed (live id now g).0
unfolding live live_entry
live-IsServed id now g h = at (find (is_grant id) g.grants)
  where
    at : (o : Option GrantEntry) → IsServed (live_entry id now o g).0
    at none = h
    at (some e) = elim (Bool-cases (ltb now e.grant.deadline)) [
      | inl unexpired ↦ rw unexpired h
      | inr over ↦ rw over (expire-IsServed id g h)
    ]

observe-IsServed :
    (authority : BrokerIdentity) (g : Grants)
    → IsServed g
    → IsServed (observe_authority authority g).0
unfolding observe_authority revoke_all
observe-IsServed authority g h = elim (Bool-cases (is_changed g.authority authority)) [
  | inl changed ↦ rw changed tt
  | inr same ↦ rw same h
]

insert_if-IsServed :
    (cloned : Bool) (authority : BrokerIdentity) (grant : Grant) (control : ℕ) (g : Grants)
    → IsServed g
    → IsServed (insert_if_authority cloned authority grant control g).0
unfolding insert_if_authority
insert_if-IsServed cloned authority grant control g h =
    elim (Bool-cases (is_authority g.authority authority)) [
      | inl current ↦ rw current (insert-IsServed cloned grant control g h)
      | inr other ↦ rw other h
    ]

-- What the registry can come to.
pub data Reached : Grants → Type 0 where
  start : Reached empty
  inserts :
      {g : Grants} (cloned : Bool) (authority : BrokerIdentity) (grant : Grant) (control : ℕ)
      → Reached g
      → Reached (insert_if_authority cloned authority grant control g).0
  observes :
      {g : Grants} (authority : BrokerIdentity)
      → Reached g
      → Reached (observe_authority authority g).0
  invalidates : {g : Grants} → Reached g → Reached (invalidate_authority g)
  asks : {g : Grants} (id now : ℕ) → Reached g → Reached (live id now g).0
  expires : {g : Grants} (id : ℕ) → Reached g → Reached (expire id g)
  pipes : {g : Grants} (cloned : Bool) (id : ℕ) → Reached g → Reached (register_pipe cloned id g).0
  drops : {g : Grants} (id pipe : ℕ) → Reached g → Reached (drop_guard id pipe g)

-- However grants and pipes come and end, every pipe that is registered is of a grant that the
-- registry has: none outlives its grant.
pub pipes-IsServed : (g : Grants) → Reached g → IsServed g
unfolding invalidate_authority revoke_all drop_guard
pipes-IsServed g start = tt
pipes-IsServed _ (inserts {g} cloned authority grant control before) =
    insert_if-IsServed cloned authority grant control g (pipes-IsServed g before)
pipes-IsServed _ (observes {g} authority before) =
    observe-IsServed authority g (pipes-IsServed g before)
pipes-IsServed _ (invalidates before) = tt
pipes-IsServed _ (asks {g} id now before) = live-IsServed id now g (pipes-IsServed g before)
pipes-IsServed _ (expires {g} id before) = expire-IsServed id g (pipes-IsServed g before)
pipes-IsServed _ (pipes {g} cloned id before) =
    register_pipe-IsServed cloned id g (pipes-IsServed g before)
pipes-IsServed _ (drops {g} id pipe before) =
    update-rows id (forget pipe) g.grants g.pipes (λ row. refl) (pipes-IsServed g before)

handles_in :
    (rows : List PipeRow) (row : PipeRow) (pipe : ℕ)
    → Memᴰ row rows
    → Memᴰ pipe row.handles
    → Memᴰ pipe (all_handles rows)
handles_in [] row pipe m h = elim m [ ]
handles_in (r ∷ rows) row pipe (Memᴰ.head same) h =
    Memᴰ.append_left (all_handles rows) (subst (λ x. Memᴰ pipe x.handles) same h)
handles_in (r ∷ rows) row pipe (Memᴰ.tail m) h =
    Memᴰ.append_right r.handles (handles_in rows row pipe m h)

controls_in :
    (es : List GrantEntry) (e : GrantEntry) → Memᴰ e es → Memᴰ e.control (map control_of es)
controls_in [] e m = elim m [ ]
controls_in (x ∷ es) e (Memᴰ.head same) = Memᴰ.head (ap control_of same)
controls_in (x ∷ es) e (Memᴰ.tail m) = Memᴰ.tail (controls_in es e m)

-- When the broker's identity or epoch is seen to change, no grant and no pipe is left: every pipe that
-- was registered is severed, and every grant's control channel is shut down.
pub observe_authority-changed :
    (authority : BrokerIdentity) (g : Grants)
    → is_changed g.authority authority ≡ true
    → ((observe_authority authority g).0.grants ≡ [])
      × ((observe_authority authority g).0.pipes ≡ [])
      × ((row : PipeRow) (pipe : ℕ)
          → Memᴰ row g.pipes
          → Memᴰ pipe row.handles
          → Memᴰ pipe (observe_authority authority g).0.severed)
      × ((e : GrantEntry)
          → Memᴰ e g.grants
          → Memᴰ e.control (observe_authority authority g).0.ended)
      × ((observe_authority authority g).0.authority ≡ some authority)
unfolding observe_authority revoke_all
observe_authority-changed authority g changed = (
  rw changed refl,
  rw changed refl,
  (λ row pipe m h. rw changed (Memᴰ.append_left g.severed (handles_in g.pipes row pipe m h))),
  (λ e m. rw changed (Memᴰ.append_left g.ended (controls_in g.grants e m))),
  rw changed refl,
)

-- A grant is found only before its deadline; one that is asked for later is taken out, its pipes are
-- severed and its control channel is shut down.
pub live-expired :
    (id now : ℕ) (g : Grants) (e : GrantEntry)
    → find (is_grant id) g.grants ≡ some e
    → ((now < e.grant.deadline) × (live id now g ≡ (g, some e.grant)))
      ⊎ ((e.grant.deadline ≤ now)
          × ((live id now g).1 ≡ none)
          × (find (is_grant id) (live id now g).0.grants ≡ none)
          × (find (is_row id) (live id now g).0.pipes ≡ none)
          × ((live id now g).0.severed ≡ row_handles (find (is_row id) g.pipes) ++ g.severed)
          × ((live id now g).0.ended ≡ e.control ∷ g.ended))
unfolding live live_entry expire
live-expired id now g e found = elim (Bool-cases (ltb now e.grant.deadline)) [
  | inl unexpired ↦ inl (ground arith, rw (found, unexpired) refl)
  | inr over ↦ inr (
    ground arith,
    rw (found, over) refl,
    rw (found, over)
        (find-retain-eq_none (is_grant id) (λ x. not (is_grant id x)) g.grants
          (λ x k. ground arith)),
    rw (found, over)
        (find-retain-eq_none (is_row id) (λ x. not (is_row id x)) g.pipes (λ x k. ground arith)),
    rw (found, over) refl,
    rw (found, over) (rw found refl),
  )
]
