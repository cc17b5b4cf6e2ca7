-- ===== src/Requests/Updates.antt =====
-- Lists of requests under the updates that the queue makes: what holds of all of them, and how many
-- pass a test.
use mathlib.Core.Path.{subst}
use forward.Prelude.{
  ℕ, ◌≤◌, ◌<◌, ◌≡◌, refl, ◌≢◌, Bool, true, false, some, List, [], ◌∷◌, ◌++◌, arith, ◌==◌,
  if◌then◌else◌, find, any, retain, count_if, update_first, All, inl, inr, Bool-cases, ◌∙◌,
}
use forward.Requests.Types.{PendingRequest}
use forward.Requests.Queue.{has_id}

-- No two requests share an id.
abbrev pub AreDistinct : List PendingRequest → Type 0
AreDistinct [] = Unit
AreDistinct (r ∷ rs) = (any (has_id r.id) rs ≡ false) × AreDistinct rs

pub any-update :
    (id x : ℕ) (f : PendingRequest → PendingRequest) (rs : List PendingRequest)
    → ((r : PendingRequest) → (f r).id ≡ r.id)
    → any (has_id x) (update_first (has_id id) f rs) ≡ any (has_id x) rs
any-update id x f [] keep = refl
any-update id x f (r ∷ rs) keep = ground (arith, keep r, any-update id x f rs keep)

pub update-AreDistinct :
    (id : ℕ) (f : PendingRequest → PendingRequest) (rs : List PendingRequest)
    → ((r : PendingRequest) → (f r).id ≡ r.id)
    → AreDistinct rs
    → AreDistinct (update_first (has_id id) f rs)
update-AreDistinct id f [] keep h = tt
update-AreDistinct id f (r ∷ rs) keep h = elim (Bool-cases (r.id == id)) [
  | inl same ↦ rw same (rw (keep r) h.0, h.1)
  | inr other ↦ rw other (any-update id r.id f rs keep ∙ h.0, update-AreDistinct id f rs keep h.1)
]

-- Among distinct ids an update touches exactly the request with the id.
module _ {P P' : PendingRequest → Type 0} where
  but_one :
      (id : ℕ) (rs : List PendingRequest)
      → ((r : PendingRequest) → P r → r.id ≢ id → P' r)
      → any (has_id id) rs ≡ false
      → All P rs
      → All P' rs
  but_one id [] other fresh h = tt
  but_one id (r ∷ rs) other fresh h =
      (other r h.0 (ground arith), but_one id rs other (ground arith) h.1)

  pub update-All :
      (id : ℕ) (f : PendingRequest → PendingRequest) (rs : List PendingRequest)
      → ((r : PendingRequest) → P r → r.id ≡ id → P' (f r))
      → ((r : PendingRequest) → P r → r.id ≢ id → P' r)
      → AreDistinct rs
      → All P rs
      → All P' (update_first (has_id id) f rs)
  update-All id f [] same other d h = tt
  update-All id f (r ∷ rs) same other d h = elim (Bool-cases (r.id == id)) [
    | inl e ↦
        let eq : r.id ≡ id = ground arith in
        rw e
          (same r h.0 eq, but_one id rs other (subst (λ x. any (has_id x) rs ≡ false) eq d.0) h.1)
    | inr e ↦ rw e (other r h.0 (ground arith), update-All id f rs same other d.1 h.1)
  ]

module _ {P P' : PendingRequest → Type 0} where
  pub All-map :
      (rs : List PendingRequest) → ((r : PendingRequest) → P r → P' r) → All P rs → All P' rs
  All-map [] imp h = tt
  All-map (r ∷ rs) imp h = (imp r h.0, All-map rs imp h.1)

-- An update makes no more requests pass a test, if what it makes of the one it finds passes it only
-- where that one did.
pub count-update-le :
    (p m : PendingRequest → Bool) (f : PendingRequest → PendingRequest) (rs : List PendingRequest)
    → ((r : PendingRequest) → find m rs ≡ some r → p (f r) ≡ true → p r ≡ true)
    → count_if p (update_first m f rs) ≤ count_if p rs
count-update-le p m f [] h = omega arith
count-update-le p m f (r ∷ rs) h = elim (Bool-cases (m r)) [
  | inl e ↦ rw e (ground (arith, h r (rw e)))
  | inr e ↦ rw e (ground (arith, count-update-le p m f rs (λ x found. h x (rw e found))))
]

pub retain-AreDistinct :
    (q : PendingRequest → Bool) (rs : List PendingRequest)
    → AreDistinct rs
    → AreDistinct (retain q rs)
retain-AreDistinct q [] h = tt
retain-AreDistinct q (r ∷ rs) h = keep (q r) (still rs h.0) (retain-AreDistinct q rs h.1)
  where
    still :
        (xs : List PendingRequest)
        → any (has_id r.id) xs ≡ false
        → any (has_id r.id) (retain q xs) ≡ false
    still [] e = refl
    still (x ∷ xs) e = ground (arith, still xs)

    keep :
        (b : Bool)
        → any (has_id r.id) (retain q rs) ≡ false
        → AreDistinct (retain q rs)
        → AreDistinct (if b then r ∷ retain q rs else retain q rs)
    keep true fresh rest = (fresh, rest)
    keep false fresh rest = rest

-- A new id above all others is distinct from them.
pub append-AreDistinct :
    (new : PendingRequest) (rs : List PendingRequest)
    → All (λ r. r.id < new.id) rs
    → AreDistinct rs
    → AreDistinct (rs ++ new ∷ [])
append-AreDistinct new [] h d = (refl, tt)
append-AreDistinct new (r ∷ rs) h d = (one_more rs d.0, append-AreDistinct new rs h.1 d.1)
  where
    one_more :
        (xs : List PendingRequest)
        → any (has_id r.id) xs ≡ false
        → any (has_id r.id) (xs ++ new ∷ []) ≡ false
    one_more [] e = ground (arith, h.0)
    one_more (x ∷ xs) e = ground (arith, one_more xs)
