-- ===== src/Distribution/Weighted/Sums.antt =====
-- The sums of the weights that `calculateCDF` (src/Distribution.cc) makes.
use cachetest.Prelude.{
  done, ◌⊎◌, ◌-◌, u64, ℕ, zero, suc, ◌+◌, ◌*◌, ◌/◌, ◌≤◌, ◌<◌, ◌≡◌, refl, ap, ◌∙◌, arith, List, [],
  ◌∷◌, All, All_mono, leb, true, get_or, length, order_cases, inl, inr,
}
use cachetest.Buffer.{get_size}
use cachetest.Distribution.{Distribution}
use cachetest.Distribution.Weighted.{insert, sort, running_totals, calculate_cdf, find_idx}
use cachetest.Distribution.Weighted.Search.{IsBound, find_idx-near}

-- The sum of the numbers before `n`.
unfoldable pub triangle : ℕ → ℕ
triangle zero = 0
triangle (suc n) = triangle n + n

-- Each number is at most those after it.
abbrev pub IsSorted : List ℕ → Type 0
IsSorted [] = Unit
IsSorted (x ∷ xs) = All (λ y. x ≤ y) xs × IsSorted xs

-- `std::sort` leaves what is sorted.
sort-IsSorted : (xs : List ℕ) → IsSorted xs → sort xs ≡ xs
unfolding sort insert
sort-IsSorted [] h = refl
sort-IsSorted (x ∷ []) h = refl
sort-IsSorted (x ∷ y ∷ ys) h =
    let small : leb x y ≡ true = ground (arith, h.0.0) in
    ap (insert x) (sort-IsSorted (y ∷ ys) h.1) ∙ rw small

abbrev pub few : ℕ
few = 0x8000_0000

triangle-bound : (n : ℕ) → n ≤ few → triangle n ≤ few * n
unfolding triangle
triangle-bound zero h = omega arith
triangle-bound (suc n) h = omega (arith, triangle-bound n (omega arith))

triangle-suc : (n : ℕ) → triangle (suc n) ≡ triangle n + n
unfolding triangle
triangle-suc n = refl

triangle_mono : (m k : ℕ) → triangle m ≤ triangle (m + k)
triangle_mono m zero = let same : m + 0 ≡ m = omega arith in rw same (omega arith)
triangle_mono m (suc k) =
    let step : m + suc k ≡ suc (m + k) = omega arith in
    rw step (omega (arith, triangle-suc (m + k), triangle_mono m k))

-- What is known of the sums.
pub record IsSums (k i : ℕ) (xs : List ℕ) (final : ℕ) : Type 0 where
  pub count : length xs ≡ k
  pub values : (j : ℕ) → j < k → get_or xs j 0 ≡ triangle (suc (i + j))
  pub total : final ≡ triangle (i + k)
  pub sorted : IsSorted xs
  pub low : All (λ y. triangle i ≤ y) xs

values-cons :
    (x : ℕ) (xs : List ℕ) (i k : ℕ)
    → x ≡ triangle (suc i)
    → ((j : ℕ) → j < k → get_or xs j 0 ≡ triangle (suc (i + 1 + j)))
    → (j : ℕ) → j < suc k
    → get_or (x ∷ xs) j 0 ≡ triangle (suc (i + j))
values-cons x xs i k e h zero lt = let same : i + 0 ≡ i = omega arith in rw same e
values-cons x xs i k e h (suc j) lt =
    let same : i + suc j ≡ i + 1 + j = omega arith in rw same (h j (omega arith))

running_totals-IsSums :
    (k i total : ℕ)
    → i + k ≤ few
    → total ≡ triangle i
    → IsSums k i (running_totals k i total).0 (running_totals k i total).1
unfolding running_totals
running_totals-IsSums zero i total h e = record {
  count = refl;
  values = λ j lt. absurd (omega arith);
  total = let same : i + 0 ≡ i = omega arith in rw same e;
  sorted = tt;
  low = tt;
}
running_totals-IsSums (suc k) i total h e =
    let next : u64 (total + i) ≡ triangle (suc i) =
      omega (arith, triangle-suc i, triangle-bound i (omega arith)) in
    let one : i + 1 ≡ suc i = omega arith in
    let r = running_totals-IsSums k (i + 1) (u64 (total + i)) (omega arith) (rw one next) in
    let above : All (λ y. u64 (total + i) ≤ y) (running_totals k (i + 1) (u64 (total + i))).0 =
      All_mono (λ y le. omega (arith, next, ap triangle one)) _ r.low in
    record {
      count = ap suc r.count;
      values =
          values-cons (u64 (total + i)) (running_totals k (i + 1) (u64 (total + i))).0 i k next
            r.values;
      total = let same : i + 1 + k ≡ i + suc k = omega arith in rw (← same) r.total;
      sorted = (above, r.sorted);
      low = (
        omega (arith, next, triangle-suc i),
        All_mono (λ y le. omega (arith, next, triangle-suc i)) _ above,
      );
    }

-- For a buffer of at most 2^31 datalines, entry `i` of the vector is the sum of the numbers up to
-- `i`, and `maxValinCDF` is the last entry.
pub calculate_cdf-IsSums :
    (d : Distribution)
    → get_size d.buffer / d.cacheline ≤ few
    → IsSums (get_size d.buffer / d.cacheline) 0 (calculate_cdf d).0 (calculate_cdf d).1
unfolding calculate_cdf triangle
calculate_cdf-IsSums d h =
    let t = running_totals-IsSums (get_size d.buffer / d.cacheline) 0 0 (omega arith) refl in
    rw (sort-IsSorted (running_totals (get_size d.buffer / d.cacheline) 0 0).0 t.sorted) t

zero_plus : (i : ℕ) → 0 + i ≡ i
zero_plus i = omega arith

get_or-outside : (xs : List ℕ) (i : ℕ) → length xs ≤ i → get_or xs i 0 ≡ 0
get_or-outside [] i h = refl
get_or-outside (x ∷ xs) zero h = absurd (omega arith)
get_or-outside (x ∷ xs) (suc i) h = get_or-outside xs i (omega arith)

-- The dataline that a key falls to: `u` with `triangle u ≤ key < triangle (u + 1)`.
pub IsSums-IsBound :
    (n key u : ℕ) (cdf : List ℕ) (final : ℕ)
    → IsSums n 0 cdf final
    → triangle u ≤ key
    → key < triangle (suc u)
    → IsBound cdf key u
IsSums-IsBound n key u cdf final t le lt = record {
  below = λ i h. elim (order_cases i n) [
    | inl inside ↦
        let le_u : suc i + (u - suc i) ≡ u = omega arith in
        omega (
          arith,
          t.values i inside,
          ap (λ z. triangle (suc z)) (zero_plus i),
          triangle_mono (suc i) (u - suc i),
          ap triangle le_u,
        )
    | inr outside ↦ omega (arith, get_or-outside cdf i (omega (arith, t.count)))
  ];
  above = λ i h inside.
      let ge_u : suc u + (i - u) ≡ suc i = omega arith in
      omega (
        arith,
        t.values i (omega (arith, t.count)),
        ap (λ z. triangle (suc z)) (zero_plus i),
        triangle_mono (suc u) (i - u),
        ap triangle ge_u,
      );
}

-- For a key from the sum of the numbers before `u` up to the sum of those up to `u`, in a buffer of
-- at most 2^31 datalines: the search ends, and gives dataline `u` or the one before it.
pub find_idx-triangle :
    (d : Distribution) (key u : ℕ)
    → get_size d.buffer / d.cacheline ≤ few
    → u < get_size d.buffer / d.cacheline
    → triangle u ≤ key
    → key < triangle (suc u)
    → (idx : ℕ) × (find_idx (calculate_cdf d).0 key ≡ done idx)
      × (idx < get_size d.buffer / d.cacheline)
      × ((idx ≡ u) ⊎ (suc idx ≡ u))
find_idx-triangle d key u small h le lt =
    let t = calculate_cdf-IsSums d small in
    let (idx, runs, inside, near) =
      find_idx-near (calculate_cdf d).0 key u (omega (arith, t.count)) (omega (arith, t.count)) (
        IsSums-IsBound (get_size d.buffer / d.cacheline) key u (calculate_cdf d).0
          (calculate_cdf d).1 t le lt) in
    (idx, runs, omega (arith, t.count), near)
