-- ===== src/Chase/Fibres.antt =====
-- `fibreTest` and `fibreCallback` (src/cachetest.cc): the workers' CPUs, and the fibres when all are
-- at the barrier.
pub mod Pins
use cachetest.Prelude.{
  ℕ, zero, suc, ◌+◌, Bool, true, false, List, [], ◌∷◌, ◌++◌, map, length, get_or, leb,
  if◌then◌else◌, Outcome, done, crashed, ◌>>=◌, ◌>>◌, assert,
}
use cachetest.Memory.{Memory}
use cachetest.Chase.{SubpathInfo, split_pointer_chasing_path}
use cachetest.Chase.Race.{World, start_idx_after, start_thread}
use cachetest.Chase.Migrate.{Migrant, migrant_start}

abbrev pub max_num_subpaths : ℕ
max_num_subpaths = 10

-- The loop over the workers of a cluster, each of which is given the set `cpuIdSets[i][j]`. There is
-- no element behind the last.
unfoldable pub cluster_sets : (num_threads : ℕ) → List (List ℕ) → Outcome (List (List ℕ))
cluster_sets zero sets = done []
cluster_sets (suc n) [] = crashed
cluster_sets (suc n) (ids ∷ sets) = cluster_sets n sets >>= λ rest. done (ids ∷ rest)

-- The loop over the clusters.
unfoldable pub worker_sets : List ℕ → List (List (List ℕ)) → Outcome (List (List (List ℕ)))
worker_sets [] sets = done []
worker_sets (n ∷ counts) [] = crashed
worker_sets (n ∷ counts) (sets ∷ rest) =
    cluster_sets n sets >>= λ here. worker_sets counts rest >>= λ others. done (here ∷ others)

-- The fibres of subpath `i` from fibre `j` on, with the steps that each starts on, and those of all
-- subpaths from `i` on.
unfoldable pub spawn_from : (offset : ℕ → ℕ → ℕ) (i j n : ℕ) → List (ℕ × ℕ)
spawn_from offset i j zero = []
spawn_from offset i j (suc n) = (i, offset i j) ∷ spawn_from offset i (j + 1) n

unfoldable pub spawn : (offset : ℕ → ℕ → ℕ) (i : ℕ) → (counts : List ℕ) → List (ℕ × ℕ)
spawn offset i [] = []
spawn offset i (n ∷ counts) = spawn_from offset i 0 n ++ spawn offset (i + 1) counts

-- `fibreCallback` up to its call of `migratingLoop`.
unfoldable pub start_migrant : List SubpathInfo → Memory → ℕ × ℕ → Migrant
start_migrant infos m (j, steps) =
    migrant_start infos j
      (start_idx_after steps m (get_or (map (λ info. info.start_idx) infos) j 0)) steps

-- The sets of the workers, and the fibres: with migration they are in `migratingLoop`, without it in
-- `loop`, as threads are.
pub record FibreTest : Type 0 where
  pub pins : List (List (List ℕ))
  pub world : World
  pub migrants : List Migrant

-- `fibreTest`, when all fibres are at the barrier. `offset` is `stepsOffset`, which is computed in
-- floating point.
unfoldable pub fibre_test :
    (migrating : Bool) (offset : ℕ → ℕ → ℕ) (infos : List SubpathInfo)
    → Memory
    → (cpu_sets : List (List (List ℕ))) (threads fibres : List ℕ) → Outcome FibreTest
fibre_test migrating offset infos m cpu_sets threads fibres =
    assert (leb (length threads) max_num_subpaths)
    >> (worker_sets threads cpu_sets >>= λ pins.
        done (record { pins = pins; world = world; migrants = migrants }))
  where
    memory : Memory
    memory = if migrating then m else split_pointer_chasing_path infos m

    starts : List (ℕ × ℕ)
    starts = spawn offset 0 fibres

    world : World
    world = record {
      memory = memory;
      pending = infos;
      threads = if migrating then [] else map (start_thread infos memory) starts;
    }

    migrants : List Migrant
    migrants = if migrating then map (start_migrant infos memory) starts else []
