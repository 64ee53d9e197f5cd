-- ===== src/Chase/Fibres/Pins.antt =====
-- The CPUs of the workers of `fibreTest` (src/cachetest.cc).
use cachetest.Prelude.{
  ℕ, zero, suc, ◌≤◌, ◌<◌, ◌≡◌, refl, ◌⊎◌, inl, inr, arith, true, false, List, [], ◌∷◌, map, length,
  leb, order_cases, done, crashed,
}
use cachetest.Memory.{Memory}
use cachetest.Chase.{SubpathInfo}
use cachetest.Chase.Race.{thread_test}
use cachetest.Chase.Fibres.{
  max_num_subpaths, cluster_sets, worker_sets, spawn, FibreTest, fibre_test,
}
use cachetest.Arguments.Cpus.{replicate, no_cpus}

cluster_sets-replicate :
    (n k : ℕ) (ids : List ℕ)
    → (n ≤ k → cluster_sets n (replicate k ids) ≡ done (replicate n ids))
      × (k < n → cluster_sets n (replicate k ids) ≡ crashed)
unfolding cluster_sets
cluster_sets-replicate zero k ids = ((λ h. refl), λ h. absurd (omega arith))
cluster_sets-replicate (suc n) zero ids = ((λ h. absurd (omega arith)), λ h. refl)
cluster_sets-replicate (suc n) (suc k) ids =
    let (all, few) = cluster_sets-replicate n k ids in
    ((λ h. rw (all (omega arith)) refl), λ h. rw (few (omega arith)) refl)

-- Some subpath has more threads than fibres.
abbrev pub MoreThreads : List ℕ → List ℕ → Type 0
MoreThreads [] fibres = ⊥
MoreThreads (n ∷ threads) [] = ⊥
MoreThreads (n ∷ threads) (k ∷ fibres) = (k < n) ⊎ MoreThreads threads fibres

-- No subpath has, and there are as many counts.
abbrev pub EnoughFibres : List ℕ → List ℕ → Type 0
EnoughFibres [] fibres = Unit
EnoughFibres (n ∷ threads) [] = ⊥
EnoughFibres (n ∷ threads) (k ∷ fibres) = (n ≤ k) × EnoughFibres threads fibres

worker_sets-enough :
    (threads fibres ids : List ℕ)
    → EnoughFibres threads fibres
    → worker_sets threads (map (λ k. replicate k ids) fibres)
      ≡ done (map (λ n. replicate n ids) threads)
unfolding worker_sets
worker_sets-enough [] fibres ids h = refl
worker_sets-enough (n ∷ threads) [] ids h = absurd h
worker_sets-enough (n ∷ threads) (k ∷ fibres) ids h =
    rw ((cluster_sets-replicate n k ids).0 h.0, worker_sets-enough threads fibres ids h.1) refl

worker_sets-crashed :
    (threads fibres ids : List ℕ)
    → MoreThreads threads fibres
    → worker_sets threads (map (λ k. replicate k ids) fibres) ≡ crashed
unfolding worker_sets
worker_sets-crashed [] fibres ids h = absurd h
worker_sets-crashed (n ∷ threads) [] ids h = absurd h
worker_sets-crashed (n ∷ threads) (k ∷ fibres) ids (inl more) =
    rw ((cluster_sets-replicate n k ids).1 more) refl
worker_sets-crashed (n ∷ threads) (k ∷ fibres) ids (inr later) = elim (order_cases k n) [
  | inl more ↦ rw ((cluster_sets-replicate n k ids).1 more) refl
  | inr enough ↦
      rw ((cluster_sets-replicate n k ids).0 enough, worker_sets-crashed threads fibres ids later)
        refl
]

EnoughFibres-self : (threads : List ℕ) → EnoughFibres threads threads
EnoughFibres-self [] = tt
EnoughFibres-self (n ∷ threads) = (omega arith, EnoughFibres-self threads)

module _ (offset : ℕ → ℕ → ℕ) (infos : List SubpathInfo) (m : Memory) where
  -- The fibres without migration, each worker of a cluster with the CPUs `ids`.
  abbrev pub as_threads : (threads fibres ids : List ℕ) → FibreTest
  as_threads threads fibres ids = record {
    pins = map (λ n. replicate n ids) threads;
    world = thread_test infos m (spawn offset 0 fibres);
    migrants = [];
  }

  -- For at most ten subpaths, without migration. Where all workers are given one list of CPUs, or
  -- none and no subpath has more threads than fibres, the fibres come to the barrier, and are then as
  -- the threads of `threadTest` would be, with as many threads as there are fibres. Without a list of
  -- CPUs, if some subpath has more threads than fibres, the test reads a set of CPUs that is not there.
  pub fibre_test-thread_test :
      (threads : List ℕ) (k : ℕ) (fibres ids : List ℕ)
      → length threads ≤ max_num_subpaths
      → (fibre_test false offset infos m (map (λ n. replicate n ids) threads) threads (k ∷ fibres)
          ≡ done (as_threads threads (k ∷ fibres) ids))
        × (EnoughFibres threads (k ∷ fibres)
            → fibre_test false offset infos m (no_cpus threads (k ∷ fibres)) threads (k ∷ fibres)
              ≡ done (as_threads threads (k ∷ fibres) []))
        × (MoreThreads threads (k ∷ fibres)
            → fibre_test false offset infos m (no_cpus threads (k ∷ fibres)) threads (k ∷ fibres)
              ≡ crashed)
  unfolding fibre_test thread_test no_cpus
  fibre_test-thread_test threads k fibres ids few =
      let test : leb (length threads) max_num_subpaths ≡ true = ground arith in
      (
        rw (test, worker_sets-enough threads threads ids (EnoughFibres-self threads)) refl,
        (λ enough. rw (test, worker_sets-enough threads (k ∷ fibres) [] enough) refl),
        λ more. rw (test, worker_sets-crashed threads (k ∷ fibres) [] more) refl,
      )
