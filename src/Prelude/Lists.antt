-- ===== src/Prelude/Lists.antt =====
-- Lists measured and indexed by native numbers, and predicates over them by recursion.
use Prim.Native.Nat.{ℕ, zero, suc, ◌+◌, ◌<◌}
use mathlib.Core.Path.{◌≡◌, refl, ap, sym}
use mathlib.Core.Logic.{◌≢◌, ◌⊎◌, inl, inr}
use mathlib.Core.List.{Memᴰ}
use cachetest.Prelude.Tests.{eq_cases}
use mathlib.Core.List.{List, [], ◌∷◌, ◌++◌, map}
use native.Mathlib.Omega.{arith}

module _ {ℓ} {A : Type ℓ} where
  abbrev pub length : List A → ℕ
  length [] = 0
  length (x ∷ xs) = suc (length xs)

  abbrev pub get_or : List A → ℕ → A → A
  get_or [] i d = d
  get_or (x ∷ xs) zero d = x
  get_or (x ∷ xs) (suc i) d = get_or xs i d

  -- The last of `x ∷ xs`.
  abbrev pub last : A → List A → A
  last x [] = x
  last x (y ∷ ys) = last y ys

  pub length-append : (xs ys : List A) → length (xs ++ ys) ≡ length xs + length ys
  length-append [] ys = omega arith
  length-append (x ∷ xs) ys = omega (arith, length-append xs ys)

abbrev pub All {ℓ κ} : {A : Type ℓ} → (A → Type κ) → List A → Type κ
All P [] = Unit
All P (x ∷ xs) = P x × All P xs

-- No two of the numbers are equal.
abbrev pub Distinct : List ℕ → Type 0
Distinct [] = Unit
Distinct (x ∷ xs) = All (λ y. x ≢ y) xs × Distinct xs

-- `n` numbers, counted up from `i`.
abbrev pub range_from : ℕ → ℕ → List ℕ
range_from i zero = []
range_from i (suc n) = i ∷ range_from (suc i) n

abbrev pub range : ℕ → List ℕ
range n = range_from 0 n

module _ {ℓ κ} {A : Type ℓ} {P Q : A → Type κ} where
  pub All_mono : ((a : A) → P a → Q a) → (xs : List A) → All P xs → All Q xs
  All_mono f [] h = tt
  All_mono f (x ∷ xs) h = (f x h.0, All_mono f xs h.1)

pub All_map2 {ℓ κ} :
    {A : Type ℓ} (P Q R : A → Type κ)
    → ((a : A) → P a → Q a → R a)
    → (xs : List A) → All P xs
    → All Q xs
    → All R xs
All_map2 P Q R f [] h k = tt
All_map2 P Q R f (x ∷ xs) h k = (f x h.0 k.0, All_map2 P Q R f xs h.1 k.1)

pub All-map {ℓ κ} :
    {A B : Type ℓ} (P : B → Type κ) (f : A → B) (xs : List A)
    → All (λ a. P (f a)) xs
    → All P (map f xs)
All-map P f [] h = tt
All-map P f (x ∷ xs) h = (h.0, All-map P f xs h.1)

pub All-get_or {ℓ κ} :
    {A : Type ℓ} (P : A → Type κ) (xs : List A) (i : ℕ) (d : A)
    → i < length xs
    → All P xs
    → P (get_or xs i d)
All-get_or P [] i d lt h = absurd (omega arith)
All-get_or P (x ∷ xs) zero d lt h = h.0
All-get_or P (x ∷ xs) (suc i) d lt h = All-get_or P xs i d (omega arith) h.1

pub All-last {ℓ κ} :
    {A : Type ℓ} (P : A → Type κ) (x : A) (xs : List A) → All P (x ∷ xs) → P (last x xs)
All-last P x [] h = h.0
All-last P x (y ∷ ys) h = All-last P y ys h.1

pub last-map {ℓ κ} :
    {A : Type ℓ} {B : Type κ} (f : A → B) (x : A) (xs : List A)
    → last (f x) (map f xs) ≡ f (last x xs)
last-map f x [] = refl
last-map f x (y ∷ ys) = last-map f y ys

pub length-range_from : (i n : ℕ) → length (range_from i n) ≡ n
length-range_from i zero = refl
length-range_from i (suc n) = ap suc (length-range_from (suc i) n)

pub length-map {ℓ κ} :
    {A : Type ℓ} {B : Type κ} (f : A → B) (xs : List A) → length (map f xs) ≡ length xs
length-map f [] = refl
length-map f (x ∷ xs) = ap suc (length-map f xs)

pub All-concat {ℓ κ} :
    {A : Type ℓ} (P : A → Type κ) (xs : List A) (y : A) → All P xs → P y → All P (xs ++ y ∷ [])
All-concat P [] y h p = (p, tt)
All-concat P (x ∷ xs) y h p = (h.0, All-concat P xs y h.1 p)

pub Distinct-concat :
    (xs : List ℕ) (y : ℕ) → Distinct xs → All (λ x. y ≢ x) xs → Distinct (xs ++ y ∷ [])
Distinct-concat [] y h ne = (tt, tt)
Distinct-concat (x ∷ xs) y h ne =
    (All-concat (λ z. x ≢ z) xs y h.0 (λ e. ne.0 (sym e)), Distinct-concat xs y h.1 ne.1)

pub last-concat {ℓ} : {A : Type ℓ} (x : A) (xs : List A) (y : A) → last x (xs ++ y ∷ []) ≡ y
last-concat x [] y = refl
last-concat x (z ∷ zs) y = last-concat z zs y

-- A number is in a list, or all numbers of the list are others.
pub Mem-cases : (n : ℕ) (xs : List ℕ) → Memᴰ n xs ⊎ All (λ x. n ≢ x) xs
Mem-cases n [] = inr tt
Mem-cases n (x ∷ xs) = elim (eq_cases n x) [
  | inl e ↦ inl (Memᴰ.head e)
  | inr ne ↦ elim (Mem-cases n xs) [ inl h ↦ inl (Memᴰ.tail h) | inr all ↦ inr (ne, all) ]
]
