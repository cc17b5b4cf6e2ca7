-- ===== src/RateLimit.antt =====
-- crates/forward/src/ratelimit.rs: how often one peer may open one URL. A URL is its text, and an
-- origin a peer's address, where there is one.
use forward.Prelude.{
  ap, sym, ◌∙◌, ◌↔◌, ℕ, ◌+◌, ◌*◌, ◌≤◌, ◌<◌, ◌≡◌, Bool, true, false, ◌&&◌, Option, none, some, List,
  [], ◌∷◌, ◌++◌, arith, ltb, ◌==◌, if◌then◌else◌, length, retain, count_if, length-append,
  length-retain-le, count_if-append, count_if-retain-le, Text, text_eq, second, duration_since,
  Bool-cases, inl, inr,
}

abbrev pub max_opens_per_window : ℕ
max_opens_per_window = 3

abbrev pub max_tracked_opens : ℕ
max_tracked_opens = 64

abbrev pub open_window : ℕ
open_window = 2 * second

pub data OpenDecision : Type 0 where
  permit : OpenDecision
  drop : ℕ → OpenDecision

pub record OpenedUrl : Type 0 where
  pub url : Text
  pub opened_at : ℕ
  pub origin : Option Text

abbrev pub RecentOpens : Type 0
RecentOpens = List OpenedUrl

abbrev pub origin_eq : Option Text → Option Text → Bool
origin_eq none none = true
origin_eq (some a) (some b) = text_eq a b
origin_eq none (some b) = false
origin_eq (some a) none = false

abbrev pub is_recent : ℕ → OpenedUrl → Bool
is_recent now entry = ltb (duration_since now entry.opened_at) open_window

abbrev pub is_same : Text → Option Text → OpenedUrl → Bool
is_same url origin entry = origin_eq entry.origin origin && text_eq entry.url url

-- `pop_front`
abbrev pub pop_front : RecentOpens → RecentOpens
pop_front [] = []
pop_front (entry ∷ entries) = entries

abbrev pub make_room : RecentOpens → RecentOpens
make_room entries = if length entries == max_tracked_opens then pop_front entries else entries

unfoldable pub record_in : Text → ℕ → Option Text → RecentOpens → RecentOpens × OpenDecision
record_in url now origin entries =
    let count = count_if (is_same url origin) entries + 1 in
    if ltb max_opens_per_window count
    then (entries, drop count)
    else (make_room entries ++ record { url = url; opened_at = now; origin = origin } ∷ [], permit)

unfoldable pub record_open : Text → ℕ → Option Text → RecentOpens → RecentOpens × OpenDecision
record_open url now origin entries = record_in url now origin (retain (is_recent now) entries)

pop_front-count :
    (p : OpenedUrl → Bool) (entries : RecentOpens)
    → count_if p (pop_front entries) ≤ count_if p entries
pop_front-count p [] = omega arith
pop_front-count p (e ∷ entries) = ground arith

make_room-count :
    (p : OpenedUrl → Bool) (entries : RecentOpens)
    → count_if p (make_room entries) ≤ count_if p entries
make_room-count p entries = ground (arith, pop_front-count p entries)

pop_front-length : (entries : RecentOpens) → length entries ≡ 64 → length (pop_front entries) ≤ 63
pop_front-length [] h = absurd (cc h)
pop_front-length (e ∷ entries) h = omega arith

make_room-length : (entries : RecentOpens) → length entries ≤ 64 → length (make_room entries) ≤ 63
make_room-length entries h = ground (arith, pop_front-length entries)

-- At most 64 opens are remembered, and at most three of one URL by one peer.
pub record IsBounded (entries : RecentOpens) : Type 0 where
  pub few : length entries ≤ 64
  pub rare : (url : Text) (origin : Option Text) → count_if (is_same url origin) entries ≤ 3

abbrev opened : Text → ℕ → Option Text → OpenedUrl
opened url now origin = record { url = url; opened_at = now; origin = origin }

-- Nobody's opens are counted but those of the same URL and peer.
same_key :
    (url url' : Text) (now : ℕ) (origin origin' : Option Text) (entries : RecentOpens)
    → is_same url' origin' (opened url now origin) ≡ true
    → count_if (is_same url' origin') entries ≡ count_if (is_same url origin) entries
same_key url url' now none none entries h =
    let same : url ≡ url' = ground arith in ap (λ u. count_if (is_same u none) entries) (sym same)
same_key url url' now (some a) (some b) entries h =
    let same : url ≡ url' = ground arith in
    let peer : a ≡ b = ground arith in
    ap (λ u. count_if (is_same u (some b)) entries) (sym same)
    ∙ ap (λ o. count_if (is_same url (some o)) entries) (sym peer)
same_key url url' now none (some b) entries h = absurd (cc h)
same_key url url' now (some a) none entries h = absurd (cc h)

added_count :
    (url url' : Text) (now : ℕ) (origin origin' : Option Text) (entries : RecentOpens)
    → count_if (is_same url origin) entries ≤ 2
    → count_if (is_same url' origin') entries ≤ 3
    → count_if (is_same url' origin') (make_room entries ++ opened url now origin ∷ []) ≤ 3
added_count url url' now origin origin' entries few h =
    elim (Bool-cases (is_same url' origin' (opened url now origin))) [
      | inl same ↦ ground (
        arith,
        count_if-append (is_same url' origin') (make_room entries) (opened url now origin ∷ []),
        same_key url url' now origin origin' entries same,
        make_room-count (is_same url' origin') entries,
      )
      | inr other ↦ ground (
        arith,
        count_if-append (is_same url' origin') (make_room entries) (opened url now origin ∷ []),
        make_room-count (is_same url' origin') entries,
      )
    ]

record_in-IsBounded :
    (url : Text) (now : ℕ) (origin : Option Text) (entries : RecentOpens)
    → IsBounded entries
    → IsBounded (record_in url now origin entries).0
unfolding record_in
record_in-IsBounded url now origin entries h =
    elim (Bool-cases (ltb max_opens_per_window (count_if (is_same url origin) entries + 1))) [
      | inl often ↦ rw often h
      | inr seldom ↦ rw seldom (record {
        few = omega (
          arith,
          length-append (make_room entries) (opened url now origin ∷ []),
          make_room-length entries h.few,
        );
        rare = λ url' origin'.
            added_count url url' now origin origin' entries (ground arith) (h.rare url' origin');
      })
    ]

-- An open, permitted or not, keeps at most 64 opens remembered, and at most three of one URL by one
-- peer.
pub record_open-IsBounded :
    (url : Text) (now : ℕ) (origin : Option Text) (entries : RecentOpens)
    → IsBounded entries
    → IsBounded (record_open url now origin entries).0
unfolding record_open
record_open-IsBounded url now origin entries h =
    record_in-IsBounded url now origin (retain (is_recent now) entries) (record {
      few = omega (arith, length-retain-le (is_recent now) entries, h.few);
      rare = λ url' origin'. omega (
        arith,
        count_if-retain-le (is_same url' origin') (is_recent now) entries,
        h.rare url' origin',
      );
    })

-- An open is permitted exactly where the same peer has opened the same URL less than three times
-- within the last two seconds, as far as the opens that are remembered tell.
pub permit_iff :
    (url : Text) (now : ℕ) (origin : Option Text) (entries : RecentOpens)
    → ((record_open url now origin entries).1 ≡ permit)
      ↔ (count_if (is_same url origin) (retain (is_recent now) entries) < 3)
unfolding record_open record_in
permit_iff url now origin entries = (λ h. ground arith, λ h. ground arith)
