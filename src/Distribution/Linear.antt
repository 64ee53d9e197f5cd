-- ===== src/Distribution/Linear.antt =====
-- `LinearDistribution` (src/Distribution.cc): every dataline points to the next.
pub mod Cycle
use cachetest.Prelude.{
  ℕ, zero, suc, ◌+◌, ◌*◌, ◌/◌, ◌%◌, List, [], ◌∷◌, ◌++◌, ltb, if◌then◌else◌, u32, through_int,
  two32,
}
use cachetest.Memory.{Memory, store32}
use cachetest.Buffer.{get_size, buffer_offset}
use cachetest.Distribution.{Distribution, with_memory}

-- One round: dataline `i` of `datalines` is written.
unfoldable pub linear_step : (datalines i : ℕ) → Distribution → Distribution
linear_step datalines i d =
    record (with_memory d (
      store32 d.buffer.memory (buffer_offset d.buffer + i * d.cacheline)
        (u32 ((i + 1) % datalines * d.cacheline + buffer_offset d.buffer)))) {
          sequence = d.sequence ++ u32 ((i + 1) % datalines) ∷ [];
          entries = u32 (d.entries + 1);
        }

-- `k` rounds, from `i` on.
unfoldable pub linear_loop : (datalines k i : ℕ) → Distribution → Distribution
linear_loop datalines zero i d = d
linear_loop datalines (suc k) i d = linear_loop datalines k (i + 1) (linear_step datalines i d)

-- The number of datalines is an `int`; there is no round if it is negative.
unfoldable pub linear_do_distribute : Distribution → Distribution
linear_do_distribute d =
    let datalines = through_int (get_size d.buffer / d.cacheline) in
    linear_loop datalines (if ltb datalines two32 then datalines else 0) 0
      (record d { sequence = [] })
