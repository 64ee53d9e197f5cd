-- ===== src/Experiment/Main/Whole.antt =====
-- The whole run of `main` with `threadTest` (src/cachetest.cc), from the command line to the end of the
-- threads.
use cachetest.Prelude.{
  ℕ, suc, ◌*◌, ◌≤◌, ◌<◌, ◌≡◌, ap, ◌∙◌, subst, arith, Bool, List, [], ◌∷◌, length, length-map, All,
  All_mono, Distinct, two64, two32, perm-range-length, done,
}
use cachetest.Buffer.Allocate.{System}
use cachetest.Buffer.Allocate.Small.{IsSystem, pool_for}
use cachetest.Distribution.{Generator, IsLawful}
use cachetest.Distribution.Subpath.{line_size}
use cachetest.Distribution.Subpath.Distribute.Layer.{words_per_line}
use cachetest.Distribution.Subpath.Distribute.Ring.{ring, chunk_at}
use cachetest.Distribution.Subpath.Distribute.Uniform.{AllLines, first_word}
use cachetest.Chase.Alarm.Stop.{Stops}
use cachetest.Chase.Race.{World, Run, thread_test}
use cachetest.Arguments.Split.{Text}
use cachetest.Arguments.Numbers.{decimal}
use cachetest.Arguments.Cpus.{cpu_setsize}
use cachetest.Arguments.Options.Pinned.{pinned_flags}
use cachetest.Perf.{Kernel}
use cachetest.Experiment.Race.{cycle_of, race-stops}
use cachetest.Experiment.Main.Command.{StartedUp, start_up, start_up-uniform}

-- A path through all of `per` datalines has `per` words.
AllLines-length : (per : ℕ) (js : List ℕ) → AllLines per js → suc (length js) ≡ per
AllLines-length per js (visits, e, p) =
    ap suc (ap length e ∙ length-map first_word visits) ∙ perm-range-length per p

module _ (sys : System) (bits : ℕ) (lawful : IsSystem sys bits) (k : Kernel) (g : Generator)
    (fair : IsLawful g) (fuel : ℕ) (positive : Text → Bool) (unset hardware : ℕ) where
  -- The command line `-T threads,counts... -C id,ids... size`, in decimal, for a size that splits
  -- evenly into `per` datalines of 64 bytes for each subpath, on a system with memory and a CPU or
  -- more: `main` comes to the threads. Whatever the random numbers, the threads on the subpaths, the
  -- words that they start at, and the order of their reads and the writes of the handler: once the
  -- handler is through, each thread leaves its loop after at most `per` reads.
  pub threads-stop :
      (size per threads : ℕ) (counts : List ℕ) (id : ℕ) (ids : List ℕ)
      → 0 < hardware
      → size < 0x20_0000
      → 0 < per
      → size * 1024 ≡ line_size * (length (threads ∷ counts) * per)
      → 0 < sys.malloc (pool_for sys (size * 1024))
      → All (λ n. n < two64) (threads ∷ counts)
      → Distinct (id ∷ ids)
      → All (λ x. x < cpu_setsize) (id ∷ ids)
      → words_per_line * per ≤ fuel
      → (r : StartedUp) × (start_up sys k g fuel positive unset hardware
            (pinned_flags threads counts id ids)
            (decimal size ∷ [])
          ≡ done r)
        × ((at_barrier : List (ℕ × ℕ)) (w : World)
            → All (λ s. s.0 < length (threads ∷ counts)) at_barrier
            → Run (thread_test r.infos r.distribution.buffer.memory at_barrier) w
            → w.pending ≡ []
            → All (λ t. Stops w.memory t.chaser per) w.threads)
  threads-stop size per threads counts id ids pos small line even memory fits distinct below
        enough =
      let (r, runs, counters, sets, count, known, lengths) =
        start_up-uniform sys bits lawful k g fair fuel positive unset hardware size per threads
          counts id ids pos small line even memory fits distinct below enough in
      let n = length (threads ∷ counts) in
      let m = r.distribution.buffer.memory in
      let room : chunk_at 0 per n ≤ two32 = omega (arith, even, small) in
      (
        r,
        runs,
        λ at_barrier w on run through.
            All_mono
              (λ t leaves.
                let c =
                  cycle_of (AllLines per) 0 per n (ring n) m r.infos line room count known
                    at_barrier on t.subpath_idx leaves.0 in
                subst (λ rounds. Stops w.memory t.chaser rounds)
                  (AllLines-length per c.steps c.shape) leaves.1)
              w.threads
              (race-stops (AllLines per) 0 per n (ring n) m r.infos line room count known at_barrier
                on w run through),
      )
