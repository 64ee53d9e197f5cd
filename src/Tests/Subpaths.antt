-- ===== src/Tests/Subpaths.antt =====
-- The set-up of two subpaths of two datalines each.
use cachetest.Prelude.{ℕ, ◌≡◌, ◌<◌, refl, arith, false, List, [], ◌∷◌, All, length, Outcome, done}
use cachetest.Buffer.{get_size, buffer_offset, is_large_buffer, get_slabs}
use cachetest.Distribution.{Distribution, setup}
use cachetest.Memory.{Memory, load32, store32}
use cachetest.Distribution.Subpath.{
  fill, write_indices, shuffle_lines, link_step, link, uniform_subpath,
}
use cachetest.Distribution.Subpath.Uniform.{Laid, uniform_subpath-suc}
use cachetest.Distribution.Subpath.Distribute.{subpath_do_distribute, chunks}
use cachetest.Distribution.Subpath.Distribute.Ring.{ring, Closed, Kept}
use cachetest.Distribution.Subpath.Distribute.Uniform.{AllLines}
use cachetest.Distribution.Subpath.Distribute.Whole.{subpath_do_distribute-uniform}
use cachetest.Chase.{
  SubpathInfo, collect_pointer_chasing_subpath_info, collect_from, measure, alarm_handler,
}
use cachetest.Chase.Measure.{InfosFrom}
use cachetest.Chase.Race.{World, Run, stay, thread_test}
use cachetest.Chase.Race.Safe.{Run-alarm_handler}
use cachetest.Experiment.Race.{IsThreadOnPath, LeavesLoop, race-safe, race-stops}
use cachetest.Experiment.{setup_distribution}
use cachetest.Experiment.Subpaths.{setup_distribution-uniform}
use cachetest.Tests.Sample.{
  counter, counter-IsLawful, four_lines, options, regular, pattern, pattern-IsSplit,
}

setup_distribution-uniform_example :
    (d : Distribution) × (infos : List SubpathInfo) × (setup_distribution counter 32 options
        four_lines 2 false
      ≡ done (d, infos))
    × (length infos ≡ 2)
    × InfosFrom (AllLines 2) (buffer_offset four_lines) 2 (ring 2) d.buffer.memory 0 infos
    × All (λ info. info.length ≡ 2) infos
setup_distribution-uniform_example =
    setup_distribution-uniform counter 32 options four_lines 2 2 counter-IsLawful regular
      (omega arith)

subpath_do_distribute-uniform_example :
    (d' : Distribution) × (subpath_do_distribute counter 2 false pattern ≡ done d')
    × ((j : ℕ)
        → j < 2
        → Closed (AllLines 2) (buffer_offset pattern.buffer) 2 (ring 2) d'.buffer.memory j)
    × Kept pattern d'
subpath_do_distribute-uniform_example =
    subpath_do_distribute-uniform counter 2 2 pattern counter-IsLawful pattern-IsSplit

uniform_subpath-suc_example :
    (e : ℕ) × (d' : Distribution) × (uniform_subpath counter pattern 2 2 5
      ≡ done (e, d', (counter.shuffle_order 1 5).1))
    × Laid pattern 2 2 (1 ∷ []) e d'
unfolding setup buffer_offset
uniform_subpath-suc_example =
    uniform_subpath-suc counter counter-IsLawful pattern 2 1 5 refl (omega arith)

-- The set-up of the two subpaths, for the theorems on what is done with it.
abbrev pub prepared :
    (d : Distribution) × (infos : List SubpathInfo) × (setup_distribution counter 32 options
        four_lines 2 false
      ≡ done (d, infos))
    × (length infos ≡ 2)
    × InfosFrom (AllLines 2) (buffer_offset four_lines) 2 (ring 2) d.buffer.memory 0 infos
    × All (λ info. info.length ≡ 2) infos
prepared =
    setup_distribution-uniform counter 32 options four_lines 2 2 counter-IsLawful regular
      (omega arith)

abbrev pub bytes : Memory
bytes = prepared.0.buffer.memory

abbrev pub found : List SubpathInfo
found = prepared.1

-- The path of each chunk goes from its first dataline to its second.
infos : Outcome (Distribution × List SubpathInfo) → List SubpathInfo
infos (done (d, found)) = found
infos other = []

measured_run :
    infos (setup_distribution counter 32 options four_lines 2 false)
    ≡ record { start_idx = 0; end_idx = 64; length = 2 }
      ∷ record { start_idx = 128; end_idx = 192; length = 2 }
      ∷ []
unfolding infos setup_distribution setup subpath_do_distribute chunks uniform_subpath fill
    write_indices shuffle_lines link link_step collect_pointer_chasing_subpath_info collect_from
    measure load32 store32 buffer_offset get_size is_large_buffer get_slabs
measured_run = refl

-- Two threads at the first words of the subpaths, and a third a step on. The handler goes through.
abbrev starts : List (ℕ × ℕ)
starts = (0, 0) ∷ (1, 0) ∷ (1, 1) ∷ []

abbrev world : World
world = record {
  memory = alarm_handler found (thread_test found bytes starts).memory;
  pending = [];
  threads = (thread_test found bytes starts).threads;
}

world-Run : Run (thread_test found bytes starts) world
unfolding thread_test
world-Run =
    Run-alarm_handler (thread_test found bytes starts) (thread_test found bytes starts).memory found
      (thread_test found bytes starts).threads stay

race-safe_example :
    All
      (IsThreadOnPath
        (AllLines 2)
        (buffer_offset four_lines)
        2
        2
        (ring 2)
        bytes
        found
        (omega arith)
        regular.room
        prepared.3
        prepared.4
        starts
        (omega arith, (omega arith, (omega arith, tt))))
      world.threads
race-safe_example =
    race-safe (AllLines 2) (buffer_offset four_lines) 2 2 (ring 2) bytes found (omega arith)
      regular.room prepared.3 prepared.4 starts (omega arith, (omega arith, (omega arith, tt)))
      world world-Run

race-stops_example :
    All
      (LeavesLoop
        (AllLines 2)
        (buffer_offset four_lines)
        2
        2
        (ring 2)
        bytes
        found
        (omega arith)
        regular.room
        prepared.3
        prepared.4
        starts
        (omega arith, (omega arith, (omega arith, tt)))
        world.memory)
      world.threads
race-stops_example =
    race-stops (AllLines 2) (buffer_offset four_lines) 2 2 (ring 2) bytes found (omega arith)
      regular.room prepared.3 prepared.4 starts (omega arith, (omega arith, (omega arith, tt)))
      world world-Run refl
