-- ===== src/Tests/Patterns.antt =====
-- The other patterns, on a buffer of four datalines.
use cachetest.Prelude.{
  ℕ, suc, ◌+◌, ◌*◌, ◌/◌, ◌%◌, ◌≡◌, ◌≤◌, ◌<◌, ◌⊎◌, refl, arith, List, ◌∷◌, map, All, Distinct,
  length, range, u32, done,
}
use cachetest.Memory.{load32}
use cachetest.Memory.Route.{Route}
use cachetest.Buffer.{get_size, buffer_offset}
use cachetest.Distribution.{Distribution, setup}
use cachetest.Distribution.Subpath.{path_index}
use cachetest.Distribution.Uniform.{uniform_do_distribute}
use cachetest.Distribution.Uniform.Sampled.{Cycle, IsUsedUp, uniform_do_distribute-Cycle}
use cachetest.Distribution.Linear.{linear_do_distribute}
use cachetest.Distribution.Linear.Cycle.{linear_do_distribute-Rounds}
use cachetest.Distribution.Weighted.{
  find_idx, calculate_cdf, running_totals, sort, insert, search, weighted_do_distribute,
}
use cachetest.Distribution.Weighted.Sums.{triangle, find_idx-triangle}
use cachetest.Distribution.Weighted.Sampled.{lines_of, weighted_do_distribute-Route}
use cachetest.Distribution.Weighted.Visits.{visits}
use cachetest.Tests.Sample.{counter, counter-IsLawful, pattern, pattern-IsPlain}

uniform_do_distribute-Cycle_example :
    (js : List ℕ) × (d' : Distribution) × (uniform_do_distribute counter pattern ≡ done d')
    × Cycle counter pattern 4 pattern-IsPlain js d'
uniform_do_distribute-Cycle_example = uniform_do_distribute-Cycle counter pattern 4 pattern-IsPlain

weighted_do_distribute-Route_example :
    (js : List ℕ) × (d' : Distribution) × (weighted_do_distribute counter pattern ≡ done d')
    × Route d'.buffer.memory (buffer_offset pattern.buffer) 0 js (buffer_offset pattern.buffer)
    × Distinct (0 ∷ js)
    × All (λ j. j < 16 * 4) (0 ∷ js)
    × (length js ≤ length d'.sequence)
    × (visits 0 (lines_of js) ≡ visits 0 d'.sequence)
    × ((length d'.sequence ≡ pattern.num_elements) ⊎ IsUsedUp 4 js)
    × (u32 d'.entries ≡ u32 (pattern.entries + length d'.sequence))
weighted_do_distribute-Route_example =
    weighted_do_distribute-Route counter counter-IsLawful pattern 4 pattern-IsPlain

linear_do_distribute-Rounds_example :
    ((j : ℕ)
      → j < 4
      → load32
          (linear_do_distribute pattern).buffer.memory
          (path_index (buffer_offset pattern.buffer) j)
        ≡ path_index (buffer_offset pattern.buffer) ((j + 1) % 4))
    × ((linear_do_distribute pattern).sequence ≡ map (λ j. u32 ((j + 1) % 4)) (range 4))
    × (u32 (linear_do_distribute pattern).entries ≡ u32 (pattern.entries + 4))
linear_do_distribute-Rounds_example = linear_do_distribute-Rounds pattern 4 (record {
  cacheline = pattern-IsPlain.cacheline;
  size = pattern-IsPlain.size;
  room = pattern-IsPlain.room;
})

find_idx-triangle_example :
    (idx : ℕ) × (find_idx (calculate_cdf pattern).0 4 ≡ done idx)
    × (idx < get_size pattern.buffer / pattern.cacheline)
    × ((idx ≡ 3) ⊎ (suc idx ≡ 3))
unfolding get_size setup triangle
find_idx-triangle_example =
    find_idx-triangle pattern 4 3 (omega arith) (omega arith) (omega arith) (omega arith)

-- Key 2 falls to dataline 2, but the search gives dataline 1: the last index compared.
search_run : find_idx (calculate_cdf pattern).0 2 ≡ done 1
unfolding find_idx search calculate_cdf sort insert running_totals get_size setup
search_run = refl
