-- ===== src/Requests/Stale.antt =====
-- `deny` followed by `complete`, as the worker does for a job that is out of date.
use mathlib.Core.Path.{subst}
use forward.Prelude.{
  ap, ◌∙◌, ℕ, ◌≡◌, refl, false, ◌==◌, Option, none, some, List, [], ◌∷◌, arith, find, any, All, inl,
  inr, Bool-cases,
}
use forward.Requests.Types.{PendingRequest, Queue, denied, is_active}
use forward.Requests.Queue.{has_id, deny, complete, ended, finish, end_request, end_with}
use forward.Requests.Updates.{AreDistinct}
use forward.Requests.Sound.{IsSound}
use forward.Requests.Over.{Rests, no_current}
use forward.Requests.Ended.{over-update}

fresh_Rests : (id : ℕ) (rs : List PendingRequest) → any (has_id id) rs ≡ false → All (Rests id) rs
fresh_Rests id [] h = tt
fresh_Rests id (r ∷ rs) h = ((λ e. absurd (ground (arith, e))), fresh_Rests id rs (ground arith))

none-Rests : (id : ℕ) (rs : List PendingRequest) → find (has_id id) rs ≡ none → All (Rests id) rs
none-Rests id [] h = tt
none-Rests id (r ∷ rs) h = ((λ e. absurd (ground (arith, e))), none-Rests id rs (ground arith))

found_Rests :
    (id : ℕ) (rs : List PendingRequest) (r : PendingRequest)
    → find (has_id id) rs ≡ some r
    → is_active r.state ≡ false
    → AreDistinct rs
    → All (Rests id) rs
found_Rests id [] r found rest d = tt
found_Rests id (x ∷ rs) r found rest d = elim (Bool-cases (x.id == id)) [
  | inl same ↦
      let eq : x.id ≡ id = ground arith in
      let first : x ≡ r = ground arith in
      (
        (λ e. ap (λ y. is_active y.state) first ∙ rest),
        fresh_Rests id rs (subst (λ i. any (has_id i) rs ≡ false) eq d.0),
      )
  | inr other ↦ ((λ e. absurd (ground (arith, e))), found_Rests id rs r (ground arith) rest d.1)
]

end_Rests :
    (id now : ℕ) (o : Option PendingRequest) (q : Queue)
    → find (has_id id) q.requests ≡ o
    → IsSound q
    → All (Rests id) (end_request denied id now o q).0.requests
unfolding end_request ended finish
end_Rests id now none q found h = none-Rests id q.requests found
end_Rests id now (some r) q found h = elim (Bool-cases (is_active r.state)) [
  | inl live ↦ rw live (over-update id (end_with denied) q (λ x. refl) h)
  | inr over ↦ rw over (found_Rests id q.requests r found over h.distinct)
]

-- Whatever became of the request, after a denial of it no completion is accepted.
pub complete-deny :
    (id generation now later : ℕ) (q : Queue)
    → IsSound q
    → (complete id generation later (deny id now q).0).1 ≡ false
unfolding deny complete
complete-deny id generation now later q h =
    rw
      (no_current id generation (deny id now q).0.requests
        (end_Rests id now (find (has_id id) q.requests) q refl h))
      refl
