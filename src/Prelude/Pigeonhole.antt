-- ===== src/Prelude/Pigeonhole.antt =====
-- Distinct numbers below a bound are no more than the bound.
use Prim.Native.Nat.{ℕ, zero, suc, ◌≤◌, ◌<◌}
use mathlib.Core.Path.{◌≡◌, refl, ap, sym, subst}
use mathlib.Core.Logic.{◌≢◌, inl, inr}
use mathlib.Core.List.{List, [], ◌∷◌}
use native.Mathlib.Omega.{arith}
use cachetest.Prelude.Tests.{◌==◌, if◌then◌else◌, eq_cases, ==_self, ==_of_ne}
use cachetest.Prelude.Lists.{length, All, All_map2, Distinct}

-- The list without the number `n`.
remove : ℕ → List ℕ → List ℕ
remove n [] = []
remove n (x ∷ xs) = if n == x then remove n xs else x ∷ remove n xs

remove-absent : (n : ℕ) (xs : List ℕ) → All (λ y. n ≢ y) xs → remove n xs ≡ xs
unfolding remove
remove-absent n [] h = refl
remove-absent n (x ∷ xs) h = rw (==_of_ne n x h.0, remove-absent n xs h.1)

All-remove {ℓ} : (P : ℕ → Type ℓ) (n : ℕ) (xs : List ℕ) → All P xs → All P (remove n xs)
unfolding remove
All-remove P n [] h = tt
All-remove P n (x ∷ xs) h = elim (eq_cases n x) [
  | inl same ↦ rw (← same, ==_self n) (All-remove P n xs h.1)
  | inr other ↦ rw (==_of_ne n x other) (h.0, All-remove P n xs h.1)
]

Distinct-remove : (n : ℕ) (xs : List ℕ) → Distinct xs → Distinct (remove n xs)
unfolding remove
Distinct-remove n [] h = tt
Distinct-remove n (x ∷ xs) h = elim (eq_cases n x) [
  | inl same ↦ rw (← same, ==_self n) (Distinct-remove n xs h.1)
  | inr other ↦ rw (==_of_ne n x other) (All-remove (λ y. x ≢ y) n xs h.0, Distinct-remove n xs h.1)
]

remove-ne : (n : ℕ) (xs : List ℕ) → All (λ y. n ≢ y) (remove n xs)
unfolding remove
remove-ne n [] = tt
remove-ne n (x ∷ xs) = elim (eq_cases n x) [
  | inl same ↦ rw (← same, ==_self n) (remove-ne n xs)
  | inr other ↦ rw (==_of_ne n x other) (other, remove-ne n xs)
]

length-remove : (n : ℕ) (xs : List ℕ) → Distinct xs → length xs ≤ suc (length (remove n xs))
unfolding remove
length-remove n [] h = omega arith
length-remove n (x ∷ xs) h = elim (eq_cases n x) [
  | inl same ↦
      rw (← same, ==_self n)
        (omega
          (arith, ap length (remove-absent n xs (subst (λ z. All (λ y. z ≢ y) xs) (sym same) h.0))))
  | inr other ↦ rw (==_of_ne n x other) (omega (arith, length-remove n xs h.1))
]

pub length_le_of_Distinct :
    (n : ℕ) (xs : List ℕ) → Distinct xs → All (λ x. x < n) xs → length xs ≤ n
length_le_of_Distinct zero [] h lt = omega arith
length_le_of_Distinct zero (x ∷ xs) h lt = absurd (omega (arith, lt.0))
length_le_of_Distinct (suc n) xs h lt =
    let below =
      All_map2 (λ x. x < suc n) (λ x. n ≢ x) (λ x. x < n) (λ x p q. omega arith) (remove n xs)
        (All-remove (λ x. x < suc n) n xs lt) (remove-ne n xs) in
    omega (
      arith,
      length-remove n xs h,
      length_le_of_Distinct n (remove n xs) (Distinct-remove n xs h) below,
    )
