-- ===== src/Experiment/Main/Totals.antt =====
-- The total that `main` (src/cachetest.cc) prints.
use cachetest.Prelude.{ℕ, ◌+◌, ◌≡◌, refl, arith, List, [], ◌∷◌, map, u64}
use cachetest.Chase.{Chaser}
use cachetest.Experiment.Main.{accumulate, subpath_access_counts, total_access_count}

-- The sum without a bound.
abbrev pub sum : List ℕ → ℕ
sum [] = 0
sum (n ∷ ns) = n + sum ns

accumulate-sum : (ns : List ℕ) (from : ℕ) → u64 (accumulate ns from) ≡ u64 (from + sum ns)
unfolding accumulate
accumulate-sum [] from = omega arith
accumulate-sum (n ∷ ns) from = omega (arith, accumulate-sum ns (u64 (from + n)))

accumulate-u64 :
    (ns : List ℕ) (from : ℕ) → u64 from ≡ from → u64 (accumulate ns from) ≡ accumulate ns from
unfolding accumulate
accumulate-u64 [] from h = h
accumulate-u64 (n ∷ ns) from h = accumulate-u64 ns (u64 (from + n)) (omega arith)

-- All steps of all threads.
abbrev pub all_steps : List (List Chaser) → ℕ
all_steps [] = 0
all_steps (rs ∷ results) = sum (map (λ r. r.accesscount) rs) + all_steps results

counts-all_steps :
    (results : List (List Chaser))
    → u64 (sum (subpath_access_counts results)) ≡ u64 (all_steps results)
unfolding subpath_access_counts
counts-all_steps [] = refl
counts-all_steps (rs ∷ results) =
    omega (arith, counts-all_steps results, accumulate-sum (map (λ r. r.accesscount) rs) 0)

-- The total that is printed is the sum of the steps of all threads, modulo 2^64: that the subpaths
-- are summed one by one, and may overflow, makes no difference.
pub total_access_count-all_steps :
    (results : List (List Chaser)) → total_access_count results ≡ u64 (all_steps results)
unfolding total_access_count
total_access_count-all_steps results = omega (
  arith,
  accumulate-sum (subpath_access_counts results) 0,
  accumulate-u64 (subpath_access_counts results) 0 refl,
  counts-all_steps results,
)
