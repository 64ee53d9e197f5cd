-- ===== src/Distribution/Weighted/Visits.antt =====
-- The datalines that a path through the draws of `WeightedUniform` (src/Distribution.cc) comes to.
use mathlib.Core.List.{append-nil}
use cachetest.Prelude.{
  ℕ, ◌≡◌, refl, sym, ap, ◌∙◌, inl, inr, ◌==◌, if◌then◌else◌, Bool-cases, true, List, [], ◌∷◌, ◌++◌,
  last, arith,
}

-- The datalines without those that are the same as the one before, from a first one on.
unfoldable pub visits : (line : ℕ) → List ℕ → List ℕ
visits line [] = []
visits line (x ∷ xs) =
    let same = visits line xs in let other = visits x xs in if x == line then same else x ∷ other

visits-last :
    (line : ℕ) (xs : List ℕ) (x : ℕ)
    → visits line (xs ++ x ∷ []) ≡ visits line xs ++ visits (last line xs) (x ∷ [])
unfolding visits
visits-last line [] x = refl
visits-last line (y ∷ ys) x = elim (Bool-cases (y == line)) [
  | inl same ↦
      let here : y ≡ line = ground (arith, same) in rw (visits, same, here) (visits-last line ys x)
  | inr other ↦ rw (visits, other) (ap (λ vs. y ∷ vs) (visits-last y ys x))
]

-- Two lists with the same visits and the same last dataline get the same visits from a further one,
-- and a dataline that is the last already gives none.
pub visits-concat :
    (line : ℕ) (xs ys : List ℕ) (x : ℕ)
    → visits line xs ≡ visits line ys
    → last line xs ≡ last line ys
    → visits line (xs ++ x ∷ []) ≡ visits line (ys ++ x ∷ [])
visits-concat line xs ys x e h =
    visits-last line xs x
    ∙ ap (λ vs. vs ++ visits (last line xs) (x ∷ [])) e
    ∙ ap (λ l. visits line ys ++ visits l (x ∷ [])) h
    ∙ sym (visits-last line ys x)

pub visits_again :
    (line : ℕ) (ys : List ℕ) (x : ℕ)
    → last line ys ≡ x
    → visits line (ys ++ x ∷ []) ≡ visits line ys
unfolding visits
visits_again line ys x e =
    let same : (x == last line ys) ≡ true = ground (arith, e) in
    visits-last line ys x ∙ rw (visits, same) (append-nil (visits line ys))
