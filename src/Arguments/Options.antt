-- ===== src/Arguments/Options.antt =====
-- `Parse_options` (src/cachetest.cc) as a whole, on what `getopt` returns.
pub mod Pinned
use cachetest.Prelude.{
  ℕ, ◌*◌, Bool, true, false, List, [], ◌∷◌, ◌++◌, length, Option, some, none, if◌then◌else◌, u32,
  Outcome, done, exited, ◌>>=◌,
}
use cachetest.Arguments.Split.{Text}
use cachetest.Arguments.Numbers.{atoi, show_int}
use cachetest.Arguments.Cpus.{
  is_nil, thread_counts, fibre_counts, parse_csv_or_range, to_set, parse_cpus, no_cpus, worker_cpus,
}
use cachetest.Perf.{Event}
use cachetest.Perf.Parse.{parse_events}
use cachetest.Experiment.{Options, default_options}

-- What a call of `getopt` returns for `OPT_ARG_STRING`, with `optarg`. `unknown` is every other result.
pub data Flag : Type 0 where
  set_threads : Text → Flag
  set_fibres : Text → Flag
  set_migrating : Flag
  set_cpus : Text → Flag
  set_individual : Flag
  set_main_cpus : Text → Flag
  set_buffer_factor : Text → Flag
  set_duration : Text → Flag
  set_loop_factor : Text → Flag
  set_cacheline : Text → Flag
  set_seed : Text → Flag
  set_cpu : Text → Flag
  set_events : Text → Flag
  set_contiguous : Flag
  set_huge : Flag
  set_buffer_offset : Text → Flag
  set_append : Flag
  set_wait : Flag
  set_dump_seq : Flag
  set_zipf_alpha : Text → Flag
  unknown : Flag

-- The variables that the first loop sets. Of `zipfAlpha` only its sign matters here.
pub record Settings : Type 0 where
  pub opt : Options
  pub threads_input : Text
  pub fibres_input : Text
  pub cpu_ids_input : Text
  pub main_cpu_ids_input : Text
  pub group_pinning : Bool
  pub migrate : Bool
  pub zipf : Bool
  pub measured_events : Option (List Event)

abbrev pub no_settings : Settings
no_settings = record {
  opt = default_options;
  threads_input = [];
  fibres_input = [];
  cpu_ids_input = [];
  main_cpu_ids_input = [];
  group_pinning = true;
  migrate = false;
  zipf = false;
  measured_events = none;
}

-- The `switch` on an option. `positive` tells whether `atof` gives a number above 0; `unset` is the
-- mask of an event that is not given one.
unfoldable pub set_option :
    (positive : Text → Bool) (unset : ℕ) → Flag → Settings → Outcome Settings
set_option positive unset (set_threads t) s = done (record s { threads_input = t })
set_option positive unset (set_fibres t) s = done (record s { fibres_input = t })
set_option positive unset set_migrating s = done (record s { migrate = true })
set_option positive unset (set_cpus t) s = done (record s { cpu_ids_input = t })
set_option positive unset set_individual s = done (record s { group_pinning = false })
set_option positive unset (set_main_cpus t) s = done (record s { main_cpu_ids_input = t })
set_option positive unset (set_buffer_factor t) s =
    done (record s { opt = record s.opt { buffer_factor = atoi t } })
set_option positive unset (set_duration t) s =
    done (record s { opt = record s.opt { duration = atoi t } })
set_option positive unset (set_loop_factor t) s =
    done (record s { opt = record s.opt { loop_factor = atoi t } })
set_option positive unset (set_cacheline t) s =
    done (record s { opt = record s.opt { cacheline = atoi t } })
set_option positive unset (set_seed t) s = done (record s { opt = record s.opt { seed = atoi t } })
set_option positive unset (set_cpu t) s = done (record s { opt = record s.opt { cpu = atoi t } })
set_option positive unset (set_events t) s =
    parse_events unset t >>= λ found. done (record s { measured_events = found })
set_option positive unset set_contiguous s = done (record s { opt = record s.opt { cont = true } })
set_option positive unset set_huge s = done (record s { opt = record s.opt { huge = true } })
set_option positive unset (set_buffer_offset t) s =
    done (record s { opt = record s.opt { buffer_offset = atoi t } })
set_option positive unset set_append s = done (record s { opt = record s.opt { append = true } })
set_option positive unset set_wait s = done (record s { opt = record s.opt { wait = true } })
set_option positive unset set_dump_seq s =
    done (record s { opt = record s.opt { dump_seq = true } })
set_option positive unset (set_zipf_alpha t) s = done (record s { zipf = positive t })
set_option positive unset unknown s = exited 1

unfoldable pub set_options :
    (positive : Text → Bool) (unset : ℕ) → List Flag → Settings → Outcome Settings
set_options positive unset [] s = done s
set_options positive unset (f ∷ fs) s =
    set_option positive unset f s >>= set_options positive unset fs

-- What a run is configured with. The names are those of the files that `output` and `error_out`
-- write to, if they are not the standard output.
pub record Configuration : Type 0 where
  pub settings : Settings
  pub output_name : Option Text
  pub error_name : Option Text
  pub thread_counts : List ℕ
  pub fibre_counts : List ℕ
  pub main_cpus : List ℕ
  pub cpu_sets : List (List (List ℕ))
  pub worker_cpus : List ℕ

-- `argv[...] << "_" << opt.cpu << ".dat"`
unfoldable pub data_name : Text → (cpu : ℕ) → Text
data_name name cpu = name ++ (95 ∷ (show_int cpu ++ 46 ∷ 100 ∷ 97 ∷ 116 ∷ []))

-- The names of the two files, from the operands behind the first. Both are made in the same stream,
-- which is not emptied in between.
unfoldable pub file_names : List Text → (cpu : ℕ) → Option Text × Option Text
file_names [] cpu = (none, none)
file_names (out ∷ []) cpu = (some (data_name out cpu), none)
file_names (out ∷ err ∷ rest) cpu =
    (some (data_name out cpu), some (data_name out cpu ++ data_name err cpu))

-- What follows the files: the threads, the fibres and the CPUs. `hardware` is the number of CPUs.
unfoldable pub configure_threads :
    (hardware : ℕ) → Settings → Option Text × Option Text → Outcome Configuration
configure_threads hardware s names = thread_counts s.threads_input >>= λ counts.
    fibre_counts s.fibres_input (length counts) >>= λ fibres.
    main_set s.main_cpu_ids_input >>= λ main. all_cpus s counts fibres >>= λ sets.
    worker_cpus hardware sets [] >>= λ workers. done (record {
      settings = s;
      output_name = names.0;
      error_name = names.1;
      thread_counts = counts;
      fibre_counts = fibres;
      main_cpus = main;
      cpu_sets = sets;
      worker_cpus = workers;
    })
  where
    main_set : Text → Outcome (List ℕ)
    main_set text =
        if is_nil text then done [] else (parse_csv_or_range text >>= λ ids. done (to_set ids))

    all_cpus : Settings → List ℕ → List ℕ → Outcome (List (List (List ℕ)))
    all_cpus s counts fibres =
        if is_nil s.cpu_ids_input
        then done (no_cpus counts fibres)
        else parse_cpus s.group_pinning counts s.cpu_ids_input

-- `Parse_options`, from the options and the operands that `getopt` leaves. The size is in KB.
unfoldable pub parse_options :
    (positive : Text → Bool) (unset hardware : ℕ)
    → List Flag
    → (operands : List Text) → Outcome Configuration
parse_options positive unset hardware flags operands =
    set_options positive unset flags no_settings >>= λ s. with_operands s operands
  where
    with_operands : Settings → List Text → Outcome Configuration
    with_operands s [] = exited 1
    with_operands s (size ∷ rest) =
        configure_threads hardware
          (record s { opt = record s.opt { dataset = u32 (atoi size * 1024) } })
          (file_names rest s.opt.cpu)
