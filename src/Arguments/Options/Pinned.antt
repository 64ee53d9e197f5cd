-- ===== src/Arguments/Options/Pinned.antt =====
-- `Parse_options` (src/cachetest.cc) on command lines with threads that are pinned.
use mathlib.Core.List.{Memᴰ}
use cachetest.Prelude.{
  ℕ, ◌*◌, ◌<◌, ◌≡◌, refl, arith, Bool, false, List, [], ◌∷◌, map, All, Distinct, u32, two64, done,
  none, inl, inr, minus_one,
}
use cachetest.Arguments.Split.{Text}
use cachetest.Arguments.Split.Tokens.{join, split-join}
use cachetest.Arguments.Numbers.{atoi, stoull, decimal}
use cachetest.Arguments.Numbers.Decimal.{stoi-decimal, decimal-cons}
use cachetest.Arguments.Cpus.{
  comma, each, is_nil, replicate, parse_counts, thread_counts, fibre_counts, cpu_setsize,
}
use cachetest.Arguments.Cpus.Lists.{csv, tokens_free}
use cachetest.Arguments.Cpus.Sets.{parse_cpus-csv}
use cachetest.Arguments.Cpus.Workers.{IsAscending, SomeWorker, worker_cpus-IsAscending}
use cachetest.Arguments.Options.{
  Flag, set_threads, set_cpus, Settings, no_settings, set_option, set_options, Configuration,
  file_names, configure_threads, parse_options,
}
use cachetest.Experiment.{default_options}

is_nil-join : (d t : Text) (ts : List Text) → is_nil t ≡ false → is_nil (join d (t ∷ ts)) ≡ false
is_nil-join d t [] e = e
is_nil-join d [] (u ∷ us) e = absurd (cc e)
is_nil-join d (c ∷ cs) (u ∷ us) e = refl

is_nil-csv : (n : ℕ) (ns : List ℕ) → is_nil (csv (n ∷ ns)) ≡ false
is_nil-csv n ns =
    let (c, cs, e) = decimal-cons n in
    is_nil-join (comma ∷ []) (decimal n) (map decimal ns) (rw e refl)

each-stoull : (ns : List ℕ) → All (λ n. n < two64) ns → each stoull (map decimal ns) ≡ done ns
each-stoull [] small = refl
each-stoull (n ∷ ns) small = rw ((stoi-decimal n).1 small.0, each-stoull ns small.1) refl

thread_counts-csv :
    (n : ℕ) (ns : List ℕ)
    → All (λ x. x < two64) (n ∷ ns)
    → thread_counts (csv (n ∷ ns)) ≡ done (n ∷ ns)
unfolding thread_counts parse_counts
thread_counts-csv n ns small =
    rw
      (
        is_nil-csv n ns,
        split-join comma (decimal n) (map decimal ns)
            (tokens_free comma (n ∷ ns) (inl (omega arith))),
        each-stoull (n ∷ ns) small,
      )
      refl

-- The command line `-T threads,counts... -C id,ids...`, and what it sets with a size.
abbrev pub pinned_flags : (threads : ℕ) (counts : List ℕ) (id : ℕ) (ids : List ℕ) → List Flag
pinned_flags threads counts id ids =
    set_threads (csv (threads ∷ counts)) ∷ set_cpus (csv (id ∷ ids)) ∷ []

abbrev pub pinned_settings : (size threads : ℕ) (counts : List ℕ) (id : ℕ) (ids : List ℕ) → Settings
pinned_settings size threads counts id ids = record no_settings {
  opt = record default_options { dataset = size * 1024 };
  threads_input = csv (threads ∷ counts);
  cpu_ids_input = csv (id ∷ ids);
}

module _ (positive : Text → Bool) (unset hardware size threads : ℕ) (counts : List ℕ) (id : ℕ)
    (ids : List ℕ) where
  -- A command line with the numbers of threads of the subpaths, a list of different CPUs below 1024, and
  -- a size of less than 2 GB, all in decimal, is accepted on a machine with a CPU or more. The
  -- dataset has that many bytes, the other options are those of the constructor of `Options` (the CPU of
  -- `-c` is -1, where the usage message says 1), there is a subpath for each number, and each thread
  -- is pinned to the CPUs of the list. The CPUs to work on are in ascending order; they have every CPU
  -- of the machine that some thread is pinned to, and no CPU that no thread is pinned to.
  pub parse_options-pinned :
      0 < hardware
      → size < 0x20_0000
      → All (λ n. n < two64) (threads ∷ counts)
      → Distinct (id ∷ ids)
      → All (λ x. x < cpu_setsize) (id ∷ ids)
      → (c : Configuration) × (parse_options positive unset hardware
            (pinned_flags threads counts id ids)
            (decimal size ∷ [])
          ≡ done c)
        × (c.settings ≡ pinned_settings size threads counts id ids)
        × (c.thread_counts ≡ threads ∷ counts)
        × (c.fibre_counts ≡ [])
        × (c.cpu_sets ≡ map (λ n. replicate n (id ∷ ids)) (threads ∷ counts))
        × IsAscending c.worker_cpus
        × ((x : ℕ) → x < hardware → SomeWorker hardware x c.cpu_sets → Memᴰ x c.worker_cpus)
        × ((x : ℕ) → Memᴰ x c.worker_cpus → SomeWorker hardware x c.cpu_sets)
        × (c.settings.opt.cpu ≡ minus_one)
  unfolding parse_options configure_threads set_options set_option fibre_counts file_names
  parse_options-pinned pos small fits distinct below =
      let sets = map (λ n. replicate n (id ∷ ids)) (threads ∷ counts) in
      let (workers, runs, up, all, kept, no_other) =
        worker_cpus-IsAscending hardware sets [] pos tt in
      let bytes : u32 (atoi (decimal size) * 1024) ≡ size * 1024 =
        omega (arith, ((stoi-decimal size).0 (omega arith)).1) in
      (
        record {
          settings = pinned_settings size threads counts id ids;
          output_name = none;
          error_name = none;
          thread_counts = threads ∷ counts;
          fibre_counts = [];
          main_cpus = [];
          cpu_sets = sets;
          worker_cpus = workers;
        },
        rw
            (
              bytes,
              thread_counts-csv threads counts fits,
              is_nil-csv id ids,
              parse_cpus-csv threads counts id ids distinct below,
              runs,
            )
            refl,
        refl,
        refl,
        refl,
        refl,
        up,
        all,
        (λ x m. elim (no_other x m) [ inl before ↦ elim before [ ] | inr thread ↦ thread ]),
        refl,
      )
