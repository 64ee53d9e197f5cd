-- ===== src/Tests/Prepared.antt =====
-- A run on 256 bytes, on a system that gives memory at an address that is on no page boundary.
use cachetest.Prelude.{
  ℕ, suc, ◌+◌, ltb, if◌then◌else◌, two64, ◌%◌, ◌^◌, ◌≤◌, ◌<◌, ◌≡◌, refl, arith, true, false, List,
  [], ◌∷◌, length, map, All, u64, none, done, exited, out_of_fuel,
}
use cachetest.Buffer.{Buffer}
use cachetest.Buffer.Frames.{round_to_alignment, page}
use cachetest.Buffer.Allocate.{System, ok, page_number, small_buffer}
use cachetest.Buffer.Allocate.Number.{page_number_lem}
use cachetest.Buffer.Allocate.Small.{IsSystem, IsPlaced, pool_for, small_buffer-IsPlaced}
use cachetest.Distribution.{Distribution}
use cachetest.Distribution.Subpath.Distribute.Ring.{ring}
use cachetest.Distribution.Subpath.Distribute.Uniform.{AllLines}
use cachetest.Chase.{Chaser}
use cachetest.Chase.Measure.{InfosFrom}
use cachetest.Experiment.Main.{total_access_count}
use cachetest.Experiment.Main.Totals.{all_steps, total_access_count-all_steps}
use cachetest.Experiment.Main.Command.{StartedUp, start_up, start_up-uniform}
use cachetest.Experiment.Main.Whole.{threads-stop}
use cachetest.Chase.Race.{World, Run, thread_test}
use cachetest.Chase.Alarm.Stop.{Stops}
use cachetest.Arguments.Numbers.{decimal}
use cachetest.Arguments.Cpus.{replicate}
use cachetest.Arguments.Options.Pinned.{pinned_flags}
use cachetest.Perf.{Kernel, new_counters}
use cachetest.Tests.Sample.{counter, counter-IsLawful}

abbrev system : System
system = record {
  getpagesize = 4096;
  malloc = λ n. if ltb n 0x100_0000_0000 then 10000 else 0;
  mmap = λ n. none;
  contents = λ x. x % 256;
  can_seek = λ o. true;
  page_info = λ o. page o false;
  unset = ok;
}

-- No counter can be opened.
abbrev kernel : Kernel
kernel = record { perf_event_open = λ n a g. none; read = λ fd. none }

system-IsSystem : IsSystem system 12
system-IsSystem = record { page = refl; page_le = omega arith; malloc_room = room }
  where
    room : (n : ℕ) → n < two64 → system.malloc n + n ≤ two64
    room n h = ground arith

has_memory_for_kb : 0 < system.malloc (pool_for system 1024)
unfolding round_to_alignment
has_memory_for_kb = omega arith

page_number_lem_example :
    (0 < 4096
      → 4096 < 2 ^ 13
      → (bits : ℕ) × (page_number 13 4096 0 ≡ done bits)
        × (2 ^ bits ≤ 4096)
        × (4096 < 2 ^ suc bits))
    × (page_number 13 0 0 ≡ out_of_fuel)
page_number_lem_example = page_number_lem 13 4096

small_buffer-IsPlaced_example :
    (system.malloc (pool_for system 256) ≡ 0 → small_buffer system 256 false ≡ exited 4)
    × (0 < system.malloc (pool_for system 256)
        → (b : Buffer) × (small_buffer system 256 false ≡ done b)
          × IsPlaced 12 256 (system.malloc (pool_for system 256)) (pool_for system 256) b)
small_buffer-IsPlaced_example = small_buffer-IsPlaced system 12 256 system-IsSystem (omega arith)

-- Two threads on a subpath and one on another.
abbrev results : List (List Chaser)
results =
    (record { index = 0; accesscount = 18446744073709551615 }
      ∷ record { index = 0; accesscount = 3 }
      ∷ [])
    ∷ (record { index = 0; accesscount = 5 } ∷ [])
    ∷ []

total_access_count-all_steps_example : total_access_count results ≡ u64 (all_steps results)
total_access_count-all_steps_example = total_access_count-all_steps results

total_run : total_access_count results ≡ 7
total_run = total_access_count-all_steps results

-- `-T 1,2 -C 3 1`: two subpaths of eight datalines.
start_up-uniform_example :
    (r : StartedUp) × (start_up system kernel counter 128
        (λ t. false)
        0
        4
        (pinned_flags 1 (2 ∷ []) 3 [])
        (decimal 1 ∷ [])
      ≡ done r)
    × (r.counters ≡ new_counters)
    × (r.configuration.cpu_sets ≡ map (λ n. replicate n (3 ∷ [])) (1 ∷ 2 ∷ []))
    × (length r.infos ≡ 2)
    × InfosFrom (AllLines 8) 0 8 (ring 2) r.distribution.buffer.memory 0 r.infos
    × All (λ info. info.length ≡ 8) r.infos
start_up-uniform_example =
    start_up-uniform system 12 system-IsSystem kernel counter counter-IsLawful 128 (λ t. false) 0 4
      1 8 1 (2 ∷ []) 3 [] (omega arith) (omega arith) (omega arith) refl has_memory_for_kb
      (omega arith, (omega arith, tt)) (tt, tt) (omega arith, tt) (omega arith)

threads-stop_example :
    (r : StartedUp) × (start_up system kernel counter 128
        (λ t. false)
        0
        4
        (pinned_flags 1 (2 ∷ []) 3 [])
        (decimal 1 ∷ [])
      ≡ done r)
    × ((at_barrier : List (ℕ × ℕ)) (w : World)
        → All (λ s. s.0 < 2) at_barrier
        → Run (thread_test r.infos r.distribution.buffer.memory at_barrier) w
        → w.pending ≡ []
        → All (λ t. Stops w.memory t.chaser 8) w.threads)
threads-stop_example =
    threads-stop system 12 system-IsSystem kernel counter counter-IsLawful 128 (λ t. false) 0 4 1 8
      1 (2 ∷ []) 3 [] (omega arith) (omega arith) (omega arith) refl has_memory_for_kb
      (omega arith, (omega arith, tt)) (tt, tt) (omega arith, tt) (omega arith)
