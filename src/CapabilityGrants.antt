-- ===== src/CapabilityGrants.antt =====
-- crates/secrets/src/capability_grants.rs: the authority records that redeemed receipts leave. An
-- entry is its deadline.
use forward.Prelude.{
  ℕ, ◌-◌, ◌≡◌, refl, Bool, Option, none, some, List, [], ◌∷◌, ◌++◌, arith, ltb, if◌then◌else◌, ap,
  ◌/◌, retain, length-append, length, get_elem?, as_secs, second,
}

pub record Entry : Type 0 where
  pub deadline : ℕ

abbrev pub CapabilityGrantTable : Type 0
CapabilityGrantTable = List Entry

abbrev pub is_live : ℕ → ℕ → Bool
is_live deadline now = ltb now deadline

-- The table, and the index of the entry recorded (`len.saturating_sub(1)`).
unfoldable pub insert : ℕ → CapabilityGrantTable → CapabilityGrantTable × ℕ
insert deadline entries =
    let entries' = entries ++ record { deadline = deadline } ∷ [] in (entries', length entries' - 1)

left_of : ℕ → Option Entry → Option ℕ
left_of now none = none
left_of now (some entry) =
    if is_live entry.deadline now then some (as_secs (entry.deadline - now)) else none

unfoldable pub remaining_secs : ℕ → ℕ → CapabilityGrantTable → Option ℕ
unfolding left_of
remaining_secs index now entries = left_of now (get_elem? entries index)

unfoldable pub sweep : ℕ → CapabilityGrantTable → CapabilityGrantTable
sweep now = retain (λ entry. is_live entry.deadline now)

unfoldable pub clear : CapabilityGrantTable → CapabilityGrantTable
clear entries = []

get_elem?-append :
    (x : Entry) (entries : CapabilityGrantTable)
    → get_elem? (entries ++ x ∷ []) (length entries) ≡ some x
get_elem?-append x [] = refl
get_elem?-append x (e ∷ entries) = get_elem?-append x entries

get_elem?-last :
    (x : Entry) (entries : CapabilityGrantTable)
    → get_elem? (entries ++ x ∷ []) (length (entries ++ x ∷ []) - 1) ≡ some x
get_elem?-last x entries =
    let last : length (entries ++ x ∷ []) - 1 ≡ length entries =
      omega (arith, length-append entries (x ∷ [])) in
    rw last (get_elem?-append x entries)

-- The index that an insertion answers names the entry it recorded: the whole seconds up to the
-- deadline are what is left of it, and nothing is left once the deadline has come.
pub remaining_secs-insert_grant :
    (deadline now : ℕ) (entries : CapabilityGrantTable)
    → remaining_secs (insert deadline entries).1 now (insert deadline entries).0
      ≡ (if ltb now deadline then some ((deadline - now) / second) else none)
unfolding remaining_secs left_of insert
remaining_secs-insert_grant deadline now entries =
    ap (left_of now) (get_elem?-last (record { deadline = deadline }) entries)
