-- ===== src/Containment.antt =====
-- Whether a caller sits inside a process tree: crates/containment/src/lib.rs (`walk`) and
-- crates/containment/src/pinned.rs. The kernel is a record of what its files answer: the pid that a
-- pidfd is pinned to, the parent that `/proc/<pid>/stat` records, and which paths exist.
use mathlib.Core.Path.{subst}
use forward.Prelude.{
  ℕ, zero, suc, ◌<◌, ◌≡◌, refl, ap, ◌≢◌, ◌↔◌, ◌⊎◌, inl, inr, Bool, true, false, Option, none, some,
  List, [], ◌∷◌, arith, leb, ◌==◌, if◌then◌else◌, any, is_some, All, Text, ℕ_discrete,
}

pub record Kernel : Type 0 where
  -- `/proc/self/fdinfo/<pidfd>`: the `Pid:` field, before the sign is tested (0 stands for a pid
  -- that is not positive).
  pub fdinfo_pid : ℕ → Option ℕ
  -- `/proc/<pid>/stat`: the parent pid.
  pub parent_of : ℕ → Option ℕ
  -- `Path::exists`
  pub path_exists : Text → Bool

-- A pidfd.
abbrev pub PinnedPeer : Type 0
PinnedPeer = ℕ

abbrev pub max_ancestry_depth : ℕ
max_ancestry_depth = 64

pub data Step : Type 0 where
  matched : Step
  continue : ℕ → Step
  stop : Step

-- The loop of `walk`: one round for each hop that is left.
walk_from : ℕ → List ℕ → ℕ → (ℕ → Step) → Bool
walk_from zero visited current visit = false
walk_from (suc hops) visited current visit = elim (any (λ seen. seen == current) visited) [
  | true ↦ false
  | false ↦ elim (visit current) [
    | matched ↦ true
    | stop ↦ false
    | continue parent ↦ walk_from hops (current ∷ visited) parent visit
  ]
]

walk : ℕ → ℕ → (ℕ → Step) → Bool
unfolding walk_from
walk start max_hops visit = walk_from max_hops [] start visit

continue_at : Option ℕ → Step
continue_at none = stop
continue_at (some parent) = continue parent

-- The closure that `descends_from_pid` hands to `walk`.
visit_pid : Kernel → ℕ → ℕ → Step
unfolding continue_at
visit_pid k ancestor current =
    if current == ancestor
    then matched
    else if leb current 1
    then stop
    else continue_at (k.parent_of current)

unfoldable pub descends_from_pid : Kernel → ℕ → ℕ → Bool
unfolding walk visit_pid
descends_from_pid k caller ancestor = walk caller max_ancestry_depth (visit_pid k ancestor)

positive : Option ℕ → Option ℕ
positive none = none
positive (some value) = if value == 0 then none else some value

unfoldable pub pid : Kernel → PinnedPeer → Option ℕ
unfolding positive
pid k peer = positive (k.fdinfo_pid peer)

unfoldable pub is_alive : Kernel → PinnedPeer → Bool
is_alive k peer = is_some (pid k peer)

both_pids : Kernel → Option ℕ → Option ℕ → Bool
both_pids k (some caller) (some ancestor) = descends_from_pid k caller ancestor
both_pids k none _ = false
both_pids k _ none = false

unfoldable pub descends_from : Kernel → PinnedPeer → PinnedPeer → Bool
unfolding both_pids
descends_from k caller root = both_pids k (pid k caller) (pid k root)

-- `Ancestor k a n p`: following recorded parents from `p` leads to `a` for the first time after `n`
-- hops, and every process before it has a pid above 1.
pub data Ancestor (k : Kernel) (a : ℕ) : ℕ → ℕ → Type 0 where
  self : {p : ℕ} → p ≡ a → Ancestor k a 0 p
  hop :
      {n p : ℕ} (q : ℕ)
      → p ≢ a
      → 1 < p
      → k.parent_of p ≡ some q
      → Ancestor k a n q
      → Ancestor k a (suc n) p

module _ (k : Kernel) (a : ℕ) where
  -- The chain is determined by where it begins.
  Ancestor-unique : {n m p : ℕ} → Ancestor k a n p → Ancestor k a m p → n ≡ m
  Ancestor-unique (self e) (self f) = refl
  Ancestor-unique (self e) (hop q ne above r rest) = absurd (ne e)
  Ancestor-unique (hop q ne above r rest) (self e) = absurd (ne e)
  Ancestor-unique (hop {n} q ne above r rest) (hop {n = m} q' ne' above' r' rest') =
      let same : q' ≡ q = cc in ap suc (Ancestor-unique rest (subst (Ancestor k a m) same rest'))

  -- One round of the loop that ends in a match.
  walk_from_round :
      (hops : ℕ) (visited : List ℕ) (current : ℕ)
      → walk_from (suc hops) visited current (visit_pid k a) ≡ true
      → (current ≡ a)
        ⊎ ((q : ℕ) × (current ≢ a)
            × (1 < current)
            × (k.parent_of current ≡ some q)
            × (walk_from hops (current ∷ visited) q (visit_pid k a) ≡ true))
  unfolding walk_from visit_pid
  walk_from_round hops visited current h = ground arith

  walk_from_sound :
      (hops : ℕ) (visited : List ℕ) (current : ℕ)
      → walk_from hops visited current (visit_pid k a) ≡ true
      → (n : ℕ) × (n < hops) × Ancestor k a n current
  unfolding walk_from
  walk_from_sound zero visited current h = cc
  walk_from_sound (suc hops) visited current h = elim (walk_from_round hops visited current h) [
    | inl e ↦ (0, omega arith, self e)
    | inr r ↦
        let (n, lt, rest) = walk_from_sound hops (current ∷ visited) r.0 r.4 in
        (suc n, omega arith, hop r.0 r.1 r.2 r.3 rest)
  ]

  -- Every visited process has a longer chain than the current one.
  abbrev Behind : ℕ → List ℕ → Type 0
  Behind n = All (λ v. (m : ℕ) × (n < m) × Ancestor k a m v)

  Behind-suc : (n : ℕ) (visited : List ℕ) → Behind (suc n) visited → Behind n visited
  Behind-suc n [] h = tt
  Behind-suc n (v ∷ visited) h = ((h.0.0, omega arith, h.0.2), Behind-suc n visited h.1)

  Behind-fresh :
      {n p : ℕ} (visited : List ℕ)
      → Ancestor k a n p
      → Behind n visited
      → any (λ seen. seen == p) visited ≡ false
  Behind-fresh [] c h = refl
  Behind-fresh {n} {p} (v ∷ visited) c h = elim (ℕ_discrete v p) [
    | yes e ↦
        let same : n ≡ h.0.0 = Ancestor-unique c (subst (Ancestor k a h.0.0) e h.0.2) in
        absurd (omega arith)
    | no ne ↦ ground (arith, Behind-fresh visited c h.1)
  ]

  walk_from_complete :
      (hops n : ℕ) (visited : List ℕ) (current : ℕ)
      → n < hops
      → Ancestor k a n current
      → Behind n visited
      → walk_from hops visited current (visit_pid k a) ≡ true
  unfolding walk_from visit_pid
  walk_from_complete zero n visited current lt c h = absurd (omega arith)
  walk_from_complete (suc hops) zero visited current lt (self e) h =
      ground (arith, Behind-fresh visited (self e) h)
  walk_from_complete (suc hops) (suc n) visited current lt (hop q ne above r rest) h = ground (
    arith,
    Behind-fresh visited (hop q ne above r rest) h,
    walk_from_complete hops n (current ∷ visited) q (omega arith) rest
        ((suc n, omega arith, hop q ne above r rest), Behind-suc n visited h),
  )

-- The walk decides ancestry within 64 processes: it answers yes exactly when following recorded
-- parents from the caller reaches the ancestor in fewer than 64 hops through pids above 1.
pub descends_from_pid_decides :
    (k : Kernel) (caller ancestor : ℕ)
    → (descends_from_pid k caller ancestor ≡ true)
      ↔ ((n : ℕ) × (n < 64) × Ancestor k ancestor n caller)
unfolding descends_from_pid
descends_from_pid_decides k caller ancestor = (
  walk_from_sound k ancestor 64 [] caller,
  λ c. walk_from_complete k ancestor 64 c.0 [] caller c.1 c.2 tt,
)
