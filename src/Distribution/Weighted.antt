-- ===== src/Distribution/Weighted.antt =====
-- `WeightedUniform` (src/Distribution.cc): dataline `i` is drawn with a weight that grows with `i`.
pub mod Search
pub mod Sums
pub mod Visits
pub mod Sampled
use cachetest.Prelude.{
  ℕ, zero, suc, ◌+◌, ◌-◌, ◌*◌, ◌/◌, ◌%◌, not, ◌&&◌, Option, none, some, List, [], ◌∷◌, ◌++◌, ltb,
  leb, get_or, length, if◌then◌else◌, u32, u64, through_int, Outcome, done, crashed, aborted, ◌>>=◌,
  ◌>>◌, assert,
}
use cachetest.Memory.{Memory, store32}
use cachetest.Buffer.{get_size, buffer_offset, is_large_buffer, get_slabs}
use cachetest.Distribution.{Generator, Distribution, with_memory}
use cachetest.Distribution.Probe.{probe}
use cachetest.Distribution.Draw.{Draw, extend}
use cachetest.Distribution.Subpath.Distribute.{is_empty}

-- `std::sort`
unfoldable pub insert : ℕ → List ℕ → List ℕ
insert x [] = x ∷ []
insert x (y ∷ ys) = let rest = insert x ys in if leb x y then x ∷ y ∷ ys else y ∷ rest

unfoldable pub sort : List ℕ → List ℕ
sort [] = []
sort (x ∷ xs) = insert x (sort xs)

-- The loop of `calculateCDF`: `k` rounds from `i` on, and the final total.
unfoldable pub running_totals : (k i total : ℕ) → List ℕ × ℕ
running_totals zero i total = ([], total)
running_totals (suc k) i total =
    let (rest, final) = running_totals k (i + 1) (u64 (total + i)) in
    (u64 (total + i) ∷ rest, final)

-- `calculateCDF`, where the vector is empty before: the vector and `maxValinCDF`.
unfoldable pub calculate_cdf : Distribution → List ℕ × ℕ
calculate_cdf d =
    let (cdf, total) = running_totals (get_size d.buffer / d.cacheline) 0 0 in (sort cdf, total)

-- The `while` loop of `getNextIDX`, with the value of `mid` that is returned.
unfoldable pub search : (rounds : ℕ) (cdf : List ℕ) (key min max mid : ℕ) → ℕ
search zero cdf key min max mid = mid
search (suc k) cdf key min max mid =
    let middle = (max + min) / 2 in
    let left = search k cdf key min middle middle in
    let right = search k cdf key (middle + 1) max middle in
    if ltb min max then (if ltb key (get_or cdf middle 0) then left else right) else mid

-- `getNextIDX`, less its draw of `key`. The variable `mid` is not set if the vector is empty.
unfoldable pub find_idx : List ℕ → ℕ → Outcome ℕ
find_idx cdf key =
    if is_empty cdf then crashed else done (search (length cdf) cdf key 0 (length cdf) 0)

module _ (g : Generator) (d : Distribution) where
  unfoldable pub get_next_idx : List ℕ → ℕ → g.State → Outcome (ℕ × g.State)
  get_next_idx cdf max_val s = do
    let (key, s') = g.rand_exc_times max_val s
    idx ← find_idx cdf key
    done (u32 idx, s')

  unfoldable pub weighted_element : ℕ → ℕ → ℕ
  weighted_element idx o =
      through_int (idx * d.cacheline + o * d.element_size + buffer_offset d.buffer)

  -- The end of the path is not marked here.
  unfoldable pub weighted_draws :
      (cdf : List ℕ) (max_val lines slots : ℕ) → ℕ → Draw g → Outcome (Draw g)
  weighted_draws cdf max_val lines slots zero w = done w
  weighted_draws cdf max_val lines slots (suc k) w = do
    (idx, s) ← get_next_idx cdf max_val w.state
    assert (ltb idx lines)
    let w1 : Draw g = record w { state = s }
    elim (probe (slots - 1) w.memory (weighted_element idx) 0) [
      | none ↦ done w1
      | some e ↦ weighted_draws cdf max_val lines slots k (extend g idx e w1)
    ]

  unfoldable pub weighted_do_distribute : Outcome Distribution
  weighted_do_distribute = do
    let lines = through_int (get_size d.buffer / d.cacheline)
    let slots = through_int (d.cacheline / d.element_size)
    if is_large_buffer d.buffer && not (is_empty (get_slabs d.buffer)) then aborted else done tt
    let (cdf, max_val) = calculate_cdf d
    let first : Draw g = record {
      memory = d.buffer.memory;
      prev = through_int (buffer_offset d.buffer);
      sequence = [];
      entries = d.entries;
      state = g.seeded d.seed;
    }
    w ← weighted_draws cdf max_val lines slots d.num_elements first
    done (record (with_memory d (store32 w.memory w.prev (buffer_offset d.buffer))) {
      sequence = w.sequence;
      entries = w.entries;
    })
