-- ===== src/Prelude/Orders.antt =====
-- Permutations of lists of numbers, measured by native numbers.
use mathlib.Core.List.{Permᴰ}
use mathlib.Core.List.Permᴰ
use cachetest.Prelude.Lists.{length, length-range_from, All, All_mono, Distinct, range_from, range}
use Prim.Native.Nat.{ℕ, zero, suc, ◌+◌, ◌<◌, ◌≤◌}
use mathlib.Core.Path.{◌≡◌, refl, ap, ◌∙◌, sym, subst}
use mathlib.Core.Logic.{◌≢◌}
use mathlib.Core.List.{List, ◌∷◌, map}
use native.Mathlib.Omega.{arith}

pub length-perm {ℓ} : {A : Type ℓ} {xs ys : List A} → Permᴰ xs ys → length xs ≡ length ys
length-perm Permᴰ.nil = refl
length-perm (Permᴰ.cons e p) = ap suc (length-perm p)
length-perm (Permᴰ.swap e f) = refl
length-perm (Permᴰ.trans p q) = length-perm p ∙ length-perm q

pub All-perm {ℓ κ} :
    {A : Type ℓ} (P : A → Type κ) {xs ys : List A} → Permᴰ xs ys → All P xs → All P ys
All-perm P Permᴰ.nil h = tt
All-perm P (Permᴰ.cons e p) h = (subst P e h.0, All-perm P p h.1)
All-perm P (Permᴰ.swap e f) h = (subst P f h.1.0, (subst P e h.0, h.1.1))
All-perm P (Permᴰ.trans p q) h = All-perm P q (All-perm P p h)

pub Distinct-perm : {xs ys : List ℕ} → Permᴰ xs ys → Distinct xs → Distinct ys
Distinct-perm Permᴰ.nil h = tt
Distinct-perm (Permᴰ.cons {a} {b} {l₂} e p) h =
    (subst (λ z. All (λ y. z ≢ y) l₂) e (All-perm (λ y. a ≢ y) p h.0), Distinct-perm p h.1)
Distinct-perm (Permᴰ.swap {a} {b} {a'} {b'} {l} e f) h = (
  ((λ eq. h.0.0 (e ∙ sym eq ∙ sym f)), subst (λ z. All (λ y. z ≢ y) l) f h.1.0),
  (subst (λ z. All (λ y. z ≢ y) l) e h.0.1, h.1.1),
)
Distinct-perm (Permᴰ.trans p q) h = Distinct-perm q (Distinct-perm p h)

range_from-bounds : (i n : ℕ) → All (λ x. (i ≤ x) × (x < i + n)) (range_from i n)
range_from-bounds i zero = tt
range_from-bounds i (suc n) = (
  omega arith,
  All_mono (λ x h. omega arith) (range_from (suc i) n) (range_from-bounds (suc i) n),
)

range_from-Distinct : (i n : ℕ) → Distinct (range_from i n)
range_from-Distinct i zero = tt
range_from-Distinct i (suc n) = (
  All_mono (λ x h. omega arith) (range_from (suc i) n) (range_from-bounds (suc i) n),
  range_from-Distinct (suc i) n,
)

pub map-suc-range_from : (i n : ℕ) → map suc (range_from i n) ≡ range_from (suc i) n
map-suc-range_from i zero = refl
map-suc-range_from i (suc n) = ap (λ xs. suc i ∷ xs) (map-suc-range_from (suc i) n)

module _ (n : ℕ) {xs : List ℕ} (p : Permᴰ xs (range n)) where
  pub perm-range-lt : All (λ x. x < n) xs
  perm-range-lt =
      All-perm (λ x. x < n) (Permᴰ.symm p)
        (All_mono {P = λ x. (0 ≤ x) × (x < 0 + n)} (λ x h. omega arith) (range n)
          (range_from-bounds 0 n))

  pub perm-range-Distinct : Distinct xs
  perm-range-Distinct = Distinct-perm (Permᴰ.symm p) (range_from-Distinct 0 n)

  pub perm-range-length : length xs ≡ n
  perm-range-length = length-perm p ∙ length-range_from 0 n

  -- One more, in front of all the others moved up by one.
  pub perm-cons-map-suc : Permᴰ (0 ∷ map suc xs) (range (suc n))
  perm-cons-map-suc =
      Permᴰ.cons refl
        (subst (λ ys. Permᴰ (map suc xs) ys) (map-suc-range_from 0 n) (Permᴰ.map suc p))
