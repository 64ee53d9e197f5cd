-- ===== src/Tests/Sample.antt =====
-- A generator that meets the documented laws, and a buffer of four datalines.
use mathlib.Core.List
use mathlib.Core.List.{Permᴰ}
use mathlib.Core.List.Permᴰ
use cachetest.Prelude.{refl, ◌<◌, ℕ, zero, suc, ◌+◌, ◌%◌, arith, false, [], range, leb, two32}
use cachetest.Buffer.{Buffer, get_size, buffer_offset, is_large_buffer, get_slabs}
use cachetest.Distribution.{Generator, IsLawful, Distribution, setup}
use cachetest.Distribution.Subpath.Zipf.{SumsReach, AvoidsMax}
use cachetest.Distribution.Subpath.Distribute.Whole.{IsSplit}
use cachetest.Distribution.Uniform.Sampled.{IsPlain}
use cachetest.Experiment.{Options, default_options}
use cachetest.Experiment.Subpaths.{IsRegular}

-- A counter; a shuffle turns its elements round.
abbrev pub counter : Generator
counter = record {
  State = ℕ;
  seeded = λ seed. seed;
  rand_int = λ s. (s % two32, s + 1);
  rand_int_upto = λ n s. (s % 1000 % (n + 1), s + 1);
  rand_exc_times = λ n s. (s % (n + 1), s + 1);
  shuffle_order = λ n s. (List.reverse (range n), s + 1);
  sum_reaches = λ n i z. leb (z % n + 1) i;
}

pub counter-IsLawful : IsLawful counter
counter-IsLawful = record {
  rand_int-lt = λ s. omega arith;
  rand_int_upto-le = λ n s. omega arith;
  rand_exc_times-le = λ n s. omega arith;
  shuffle_order-perm = λ n s. Permᴰ.reverse (range n);
}

pub counter-SumsReach : (n : ℕ) → 0 < n → SumsReach counter n
counter-SumsReach n pos z state = ground (arith, pos)

pub counter-AvoidsMax : (size calls s : ℕ) → AvoidsMax counter size calls s
counter-AvoidsMax size zero s = tt
counter-AvoidsMax size (suc calls) s = ((λ e. omega (arith, e)), counter-AvoidsMax size calls _)

-- 256 bytes, which start at the address 4096 and are zero.
abbrev pub four_lines : Buffer
four_lines = record {
  buffer_size = 256;
  contiguous = false;
  logical_page_size = 4096;
  page_size = 4096;
  buffer = 4096;
  start_address = 4096;
  buffer_slabs = [];
  pool_size = 8192;
  large = false;
  memory = λ x. 0;
}

abbrev pub options : Options
options = record default_options { dataset = 256 }

-- The options and the buffer fit two subpaths of two datalines each.
pub regular : IsRegular options four_lines 2 2
unfolding buffer_offset get_size is_large_buffer get_slabs
regular = record {
  plain = refl;
  cacheline = refl;
  dataset = refl;
  size = refl;
  some_subpath = omega arith;
  some_line = omega arith;
  room = omega arith;
}

abbrev pub pattern : Distribution
pattern = setup four_lines 4 7 64

pub pattern-IsSplit : IsSplit 2 2 pattern
unfolding buffer_offset get_size is_large_buffer get_slabs setup
pattern-IsSplit = record {
  plain = refl;
  cacheline = refl;
  size = refl;
  some_subpath = omega arith;
  some_line = omega arith;
  room = omega arith;
}

pub pattern-IsPlain : IsPlain pattern 4
unfolding buffer_offset get_size is_large_buffer get_slabs setup
pattern-IsPlain = record {
  plain = refl;
  cacheline = refl;
  element_size = refl;
  size = refl;
  some_line = omega arith;
  room = omega arith;
  zeros = λ x h lt. refl;
}
