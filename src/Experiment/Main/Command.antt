-- ===== src/Experiment/Main/Command.antt =====
-- `main` (src/cachetest.cc) from the command line to the measured subpaths.
use native.Mathlib.Nat.{pow-le-pow_right}
use cachetest.Prelude.{
  ℕ, ◌*◌, ◌≤◌, ◌<◌, ◌≡◌, refl, arith, Bool, List, [], ◌∷◌, length, map, All, Distinct, Option, none,
  some, two64, Outcome, done, ◌>>=◌, ◌>>◌, subst,
}
use cachetest.Buffer.Allocate.{System}
use cachetest.Buffer.Allocate.Small.{IsSystem, pool_for}
use cachetest.Distribution.{Generator, IsLawful, Distribution}
use cachetest.Distribution.Subpath.{line_size}
use cachetest.Distribution.Subpath.Distribute.Layer.{words_per_line}
use cachetest.Distribution.Subpath.Distribute.Ring.{ring}
use cachetest.Distribution.Subpath.Distribute.Uniform.{AllLines}
use cachetest.Chase.{SubpathInfo}
use cachetest.Chase.Measure.{InfosFrom}
use cachetest.Arguments.Split.{Text}
use cachetest.Arguments.Numbers.{decimal}
use cachetest.Arguments.Cpus.{replicate, cpu_setsize}
use cachetest.Arguments.Options.{Flag, Configuration, parse_options}
use cachetest.Arguments.Options.Pinned.{pinned_flags, pinned_settings, parse_options-pinned}
use cachetest.Perf.{Event, Kernel, Counters, new_counters, add_events}
use cachetest.Experiment.{configure_experiment, setup_distribution}
use cachetest.Experiment.Main.{setup_buffer, check_dataset}
use cachetest.Experiment.Main.Prepared.{IsPlainRun, setup_buffer-IsRegular, checked, configured}
use cachetest.Experiment.Subpaths.{setup_distribution-uniform}

-- `Setup_perf`
unfoldable pub setup_perf : Kernel → Option (List Event) → Outcome Counters
setup_perf k none = done new_counters
setup_perf k (some events) = add_events k events new_counters

-- What the steps of `main` before the threads leave.
pub record StartedUp : Type 0 where
  pub configuration : Configuration
  pub counters : Counters
  pub distribution : Distribution
  pub infos : List SubpathInfo

-- `main` up to the threads.
unfoldable pub start_up :
    (sys : System) (k : Kernel) (g : Generator) (fuel : ℕ) (positive : Text → Bool)
    (unset hardware : ℕ)
    → (options : List Flag) → (operands : List Text) → Outcome StartedUp
start_up sys k g fuel positive unset hardware options operands = do
  c ← parse_options positive unset hardware options operands
  check_dataset c.settings.opt
  configure_experiment c.settings.opt
  b ← setup_buffer sys c.settings.opt
  counters ← setup_perf k c.settings.measured_events
  (d, infos) ← setup_distribution g fuel c.settings.opt b (length c.thread_counts) c.settings.zipf
  done (record { configuration = c; counters = counters; distribution = d; infos = infos })

module _ (sys : System) (bits : ℕ) (lawful : IsSystem sys bits) (k : Kernel) (g : Generator)
    (fair : IsLawful g) (fuel : ℕ) (positive : Text → Bool) (unset hardware : ℕ) where
  -- The command line `-T threads,counts... -C id,ids... size`, in decimal, for a size that splits
  -- evenly into `per` datalines of 64 bytes for each subpath, on a system with memory and a CPU or
  -- more: `main` comes to the threads, whatever the random numbers. There is a subpath for each number of
  -- threads, in order from the start of the buffer, and each is a path that visits every dataline of
  -- its chunk once. No counter is opened.
  pub start_up-uniform :
      (size per threads : ℕ) (counts : List ℕ) (id : ℕ) (ids : List ℕ)
      → 0 < hardware
      → size < 0x20_0000
      → 0 < per
      → size * 1024 ≡ line_size * (length (threads ∷ counts) * per)
      → 0 < sys.malloc (pool_for sys (size * 1024))
      → All (λ n. n < two64) (threads ∷ counts)
      → Distinct (id ∷ ids)
      → All (λ x. x < cpu_setsize) (id ∷ ids)
      → words_per_line * per ≤ fuel
      → (r : StartedUp) × (start_up sys k g fuel positive unset hardware
            (pinned_flags threads counts id ids)
            (decimal size ∷ [])
          ≡ done r)
        × (r.counters ≡ new_counters)
        × (r.configuration.cpu_sets ≡ map (λ n. replicate n (id ∷ ids)) (threads ∷ counts))
        × (length r.infos ≡ length (threads ∷ counts))
        × InfosFrom
            (AllLines per)
            0
            per
            (ring (length (threads ∷ counts)))
            r.distribution.buffer.memory
            0
            r.infos
        × All (λ info. info.length ≡ per) r.infos
  unfolding start_up setup_perf
  start_up-uniform size per threads counts id ids pos small line even memory fits distinct below
        enough =
      let (c, parsed, set, subpaths, fibres, sets, _, _, _, _) =
        parse_options-pinned positive unset hardware size threads counts id ids pos small fits
          distinct below in
      let opt = (pinned_settings size threads counts id ids).opt in
      let run : IsPlainRun opt bits (length (threads ∷ counts)) per = record {
        huge = refl;
        cont = refl;
        factor = refl;
        duration = omega arith;
        cacheline = refl;
        dataset = even;
        small = omega arith;
        offset = omega (arith, pow-le-pow_right {n = 2} (omega arith) lawful.page_le);
        some_subpath = omega arith;
        some_line = line;
      } in
      let n = length (threads ∷ counts) in
      let (b, runs, regular, zeros, at, whole) =
        setup_buffer-IsRegular sys bits lawful opt n per run memory in
      let (d, infos, ends, count, known, lengths) =
        setup_distribution-uniform g fuel opt b n per fair regular enough in
      (
        record { configuration = c; counters = new_counters; distribution = d; infos = infos },
        rw
            (
              parsed,
              set,
              subpaths,
              checked sys bits lawful opt n per run memory,
              configured sys bits lawful opt n per run memory,
              runs,
              ends,
            )
            refl,
        refl,
        sets,
        count,
        subst (λ o. InfosFrom (AllLines per) o per (ring n) d.buffer.memory 0 infos) at known,
        lengths,
      )
