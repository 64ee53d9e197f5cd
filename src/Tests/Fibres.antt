-- ===== src/Tests/Fibres.antt =====
-- Fibres on the two subpaths that have been set up.
use cachetest.Prelude.{◌≡◌, arith, false, [], ◌∷◌, done, crashed, map, minus_one}
use cachetest.Buffer.{buffer_offset}
use cachetest.Distribution.Subpath.Distribute.Ring.{chunk_at}
use cachetest.Distribution.Subpath.Distribute.Uniform.{AllLines}
use cachetest.Chase.{alarm_handler}
use cachetest.Chase.Migrate.{migrant_start, migrating_loop}
use cachetest.Chase.Migrate.Located.{Located, migrating_loop-Located}
use cachetest.Experiment.Fibres.{migrants-stop}
use cachetest.Chase.Fibres.{fibre_test}
use cachetest.Chase.Fibres.Pins.{as_threads, EnoughFibres, MoreThreads, fibre_test-thread_test}
use cachetest.Arguments.Cpus.{replicate, no_cpus}
use cachetest.Tests.Sample.{four_lines, regular}
use cachetest.Tests.Subpaths.{prepared, bytes, found}

migrating_loop-Located_example :
    Located
      (AllLines 2)
      (buffer_offset four_lines)
      2
      2
      bytes
      found
      regular.room
      prepared.3
      prepared.4
      (migrating_loop 5 found 2 bytes
        (migrant_start found 1 (chunk_at (buffer_offset four_lines) 2 1) 0))
migrating_loop-Located_example =
    migrating_loop-Located (AllLines 2) (buffer_offset four_lines) 2 2 bytes found regular.room
      prepared.3 prepared.4 5 1 (omega arith)

migrants-stop_example :
    (migrating_loop 33 found 2 (alarm_handler found bytes) (
      migrating_loop 3 found 2 bytes
        (migrant_start found 1 (chunk_at (buffer_offset four_lines) 2 1) 0))).index
    ≡ minus_one
migrants-stop_example =
    migrants-stop (AllLines 2) (buffer_offset four_lines) 2 2 bytes found (omega arith) regular.room
      prepared.3 prepared.4 3 33 1 (omega arith) (omega arith)

-- Two subpaths with two threads and one, and with one fibre and two.
fibre_test-thread_test_example :
    (fibre_test false
        (λ i j. j)
        found
        bytes
        (map (λ n. replicate n (3 ∷ [])) (2 ∷ 1 ∷ []))
        (2 ∷ 1 ∷ [])
        (1 ∷ 2 ∷ [])
      ≡ done (as_threads (λ i j. j) found bytes (2 ∷ 1 ∷ []) (1 ∷ 2 ∷ []) (3 ∷ [])))
    × (EnoughFibres (2 ∷ 1 ∷ []) (1 ∷ 2 ∷ [])
        → fibre_test false
            (λ i j. j)
            found
            bytes
            (no_cpus (2 ∷ 1 ∷ []) (1 ∷ 2 ∷ []))
            (2 ∷ 1 ∷ [])
            (1 ∷ 2 ∷ [])
          ≡ done (as_threads (λ i j. j) found bytes (2 ∷ 1 ∷ []) (1 ∷ 2 ∷ []) []))
    × (MoreThreads (2 ∷ 1 ∷ []) (1 ∷ 2 ∷ [])
        → fibre_test false
            (λ i j. j)
            found
            bytes
            (no_cpus (2 ∷ 1 ∷ []) (1 ∷ 2 ∷ []))
            (2 ∷ 1 ∷ [])
            (1 ∷ 2 ∷ [])
          ≡ crashed)
fibre_test-thread_test_example =
    fibre_test-thread_test (λ i j. j) found bytes (2 ∷ 1 ∷ []) 1 (2 ∷ []) (3 ∷ []) (omega arith)
