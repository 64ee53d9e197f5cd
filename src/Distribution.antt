-- ===== src/Distribution.antt =====
-- The base class of the access patterns (src/include/Distribution.hpp, src/Distribution.cc), and
-- what they take from libraries that are no part of the program.
pub mod Probe
pub mod Grow
pub mod Draw
pub mod Linear
pub mod Uniform
pub mod Weighted
pub mod Subpath
pub mod Zipf
pub mod Create
use mathlib.Core.List.{Permᴰ}
use cachetest.Prelude.{ℕ, ◌+◌, ◌/◌, ◌≤◌, ◌<◌, ◌≡◌, Bool, true, List, [], range, u32, two32}
use cachetest.Memory.{Memory}
use cachetest.Buffer.{Buffer, get_size}

-- Random numbers: the calls of `MTRand` (MersenneTwister.h) and of `std::shuffle`, and the floating
-- point of `zipf` (src/genzipf.cc). A shuffle moves its elements by positions that depend on their number and on the
-- generator alone: element `i` of the result is element `order[i]` of the input.
pub record Generator : Type 1 where
  pub State : Type 0
  pub seeded : ℕ → State
  pub rand_int : State → ℕ × State
  pub rand_int_upto : ℕ → State → ℕ × State
  -- `(unsigned long long)(mr.randExc() * n)`, where the real number is in [0, 1).
  pub rand_exc_times : ℕ → State → ℕ × State
  pub shuffle_order : ℕ → State → List ℕ × State
  -- Whether the sum of the probabilities of the first `i` of `n` values, computed in doubles, is at
  -- least `z / (2^31 - 1)`. The exponent is the same in all calls of a run.
  pub sum_reaches : (n i z : ℕ) → Bool

-- What the documentation of those calls says.
pub record IsLawful (g : Generator) : Type 0 where
  pub rand_int-lt : (s : g.State) → (g.rand_int s).0 < two32
  pub rand_int_upto-le : (n : ℕ) (s : g.State) → (g.rand_int_upto n s).0 ≤ n
  pub rand_exc_times-le : (n : ℕ) (s : g.State) → (g.rand_exc_times n s).0 ≤ n
  pub shuffle_order-perm : (n : ℕ) (s : g.State) → Permᴰ (g.shuffle_order n s).0 (range n)

pub record Distribution : Type 0 where
  pub cacheline : ℕ
  pub element_size : ℕ
  pub seed : ℕ
  pub buffer : Buffer
  pub sequence : List ℕ
  pub entries : ℕ
  pub num_elements : ℕ
  pub num_elements_in_cacheline : ℕ

abbrev pub with_memory : Distribution → Memory → Distribution
with_memory d m = record d { buffer = record (d.buffer) { memory = m } }

-- `Distribution()` followed by `setup`.
unfoldable pub setup : Buffer → ℕ → ℕ → ℕ → Distribution
unfolding get_size
setup buffer esize seed cacheline = record {
  cacheline = cacheline;
  element_size = esize;
  seed = seed;
  buffer = buffer;
  sequence = [];
  entries = 0;
  num_elements = u32 (get_size buffer / esize);
  num_elements_in_cacheline = u32 (cacheline / esize);
}
