-- ===== src/Experiment/Main.antt =====
-- `main` (src/cachetest.cc): the steps up to the test, and the counts that it prints at the end.
pub mod Prepared
pub mod Totals
pub mod Command
pub mod Whole
use cachetest.Prelude.{
  ℕ, zero, suc, ◌+◌, ◌*◌, Bool, ◌&&◌, List, [], ◌∷◌, map, ltb, if◌then◌else◌, u32, u64, through_int,
  Outcome, done, exited, ◌>>=◌, ◌>>◌, exit_if,
}
use cachetest.Buffer.{Buffer, set_buffer_offset}
use cachetest.Buffer.Allocate.{System, small_buffer, large_buffer}
use cachetest.Distribution.{Generator, Distribution}
use cachetest.Chase.{SubpathInfo, Chaser}
use cachetest.Experiment.{Options, configure_experiment, setup_distribution}

-- `Setup_buffer`. The size is a product of two `unsigned int`s, kept in an `int`.
unfoldable pub setup_buffer : System → Options → Outcome Buffer
setup_buffer sys opt = do
  let size = through_int (u32 (opt.dataset * opt.buffer_factor))
  b ← if opt.huge then large_buffer sys size opt.cont else small_buffer sys size opt.cont
  done (set_buffer_offset opt.buffer_offset b)

-- The check of the size that `main` makes for huge pages. The status is -1, of which 8 bits are kept.
unfoldable pub check_dataset : Options → Outcome (Unit {0})
check_dataset opt = exit_if (opt.huge && ltb 0x4000_0000 opt.dataset) 255

-- `main` from the parsed options on, up to the threads, without the counters.
unfoldable pub prepare :
    (sys : System) (g : Generator) (fuel : ℕ)
    → Options
    → (subpaths : ℕ) (zipf : Bool) → Outcome (Distribution × List SubpathInfo)
prepare sys g fuel opt subpaths zipf = do
  check_dataset opt
  configure_experiment opt
  b ← setup_buffer sys opt
  setup_distribution g fuel opt b subpaths zipf

-- `std::accumulate` of `unsigned long long`s.
unfoldable pub accumulate : List ℕ → ℕ → ℕ
accumulate [] sum = sum
accumulate (n ∷ ns) sum = accumulate ns (u64 (sum + n))

-- The access counts of the subpaths, from the results of their threads, and their total.
unfoldable pub subpath_access_counts : List (List Chaser) → List ℕ
subpath_access_counts results = map (λ rs. accumulate (map (λ r. r.accesscount) rs) 0) results

unfoldable pub total_access_count : List (List Chaser) → ℕ
total_access_count results = accumulate (subpath_access_counts results) 0
