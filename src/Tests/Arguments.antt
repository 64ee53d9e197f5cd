-- ===== src/Tests/Arguments.antt =====
-- Command lines.
use mathlib.Core.List.{Memᴰ}
use cachetest.Prelude.{
  crashed, minus_one, ◌⊎◌, ℕ, ◌+◌, ◌-◌, ◌<◌, ◌≡◌, refl, arith, true, false, List, [], ◌∷◌, map, All,
  range_from, done, aborted, none, some,
}
use cachetest.Arguments.Split.{Text, split, split_from, find, strip}
use cachetest.Arguments.Split.Tokens.{join, split_lem, split-join}
use cachetest.Arguments.Numbers.{
  stoi, stoull, decimal, decimal_from, read_number, skip_spaces, magnitude, value, show_int,
}
use cachetest.Arguments.Cpus.{
  last_int, parse_csv_or_range, interval, contains, parse_cpus, parse_subpath_cpus, is_exclusive,
  is_sane, worker_cpus, worker_cpus_of, insert, insert_all, replicate, least_size,
}
use cachetest.Arguments.Cpus.Lists.{csv, cpu_range, parse_csv_or_range-csv}
use cachetest.Arguments.Cpus.Sets.{parse_cpus-csv}
use cachetest.Arguments.Cpus.Workers.{IsAscending, SomeWorker, worker_cpus-IsAscending}
use cachetest.Arguments.Options.{Configuration, parse_options, file_names, data_name}
use cachetest.Arguments.Options.Pinned.{pinned_flags, pinned_settings, parse_options-pinned}

-- `1,,2`
abbrev text : Text
text = 49 ∷ 44 ∷ 44 ∷ 50 ∷ []

split_lem_example :
    (t : Text) × (ts : List Text) × (split text (44 ∷ []) ≡ done (t ∷ ts))
    × (join (44 ∷ []) (t ∷ ts) ≡ text)
    × All (λ u. find (44 ∷ []) u ≡ none) (t ∷ ts)
split_lem_example = split_lem 44 [] text

split_run : split text (44 ∷ []) ≡ done ((49 ∷ []) ∷ [] ∷ (50 ∷ []) ∷ [])
unfolding split split_from find strip
split_run = refl

split-join_example :
    split (join (44 ∷ []) ((49 ∷ []) ∷ [] ∷ (50 ∷ []) ∷ [])) (44 ∷ [])
    ≡ done ((49 ∷ []) ∷ [] ∷ (50 ∷ []) ∷ [])
split-join_example =
    split-join 44 (49 ∷ []) ([] ∷ (50 ∷ []) ∷ [])
      (((λ e. omega arith), tt), (tt, (((λ e. omega arith), tt), tt)))

-- ` +7x`, `-1` and `x`.
stoi_run : stoi (32 ∷ 43 ∷ 55 ∷ 120 ∷ []) ≡ done 7
unfolding stoi read_number skip_spaces magnitude value
stoi_run = refl

stoull_run : stoull (45 ∷ 49 ∷ []) ≡ done 18446744073709551615
unfolding stoull read_number skip_spaces magnitude value
stoull_run = refl

stoi_no_digit_run : stoi (120 ∷ []) ≡ aborted
unfolding stoi read_number skip_spaces magnitude value
stoi_no_digit_run = refl

parse_csv_or_range-csv_example :
    (parse_csv_or_range (csv (4 ∷ 2 ∷ [])) ≡ done (4 ∷ 2 ∷ []))
    × ((last : ℕ)
        → last < last_int
        → parse_csv_or_range (cpu_range 4 last) ≡ done (range_from 4 (last + 1 - 4)))
    × (parse_csv_or_range (cpu_range 4 last_int) ≡ crashed)
parse_csv_or_range-csv_example = parse_csv_or_range-csv 4 (2 ∷ []) (omega arith, (omega arith, tt))

parse_cpus-csv_example :
    parse_cpus true (2 ∷ 1 ∷ []) (csv (4 ∷ 2 ∷ []))
    ≡ done (map (λ n. replicate n (4 ∷ 2 ∷ [])) (2 ∷ 1 ∷ []))
parse_cpus-csv_example =
    parse_cpus-csv 2 (1 ∷ []) 4 (2 ∷ []) (((λ e. omega arith), tt), (tt, tt))
      (omega arith, (omega arith, tt))

-- `5-4~1`: the first thread gets no CPU, and the check lets it pass.
empty_list_run :
    parse_subpath_cpus (53 ∷ 45 ∷ 52 ∷ 126 ∷ 49 ∷ [])
    ≡ done (record { of_all = []; of_threads = [] ∷ (1 ∷ []) ∷ [] })
unfolding parse_subpath_cpus parse_csv_or_range interval contains split split_from find strip stoi
    read_number skip_spaces magnitude value is_exclusive is_sane least_size
empty_list_run = refl

worker_cpus-IsAscending_example :
    (result : List ℕ) × (worker_cpus 8 (((4 ∷ 2 ∷ []) ∷ []) ∷ ((1 ∷ []) ∷ []) ∷ []) []
      ≡ done result)
    × IsAscending result
    × ((c : ℕ)
        → c < 8
        → SomeWorker 8 c (((4 ∷ 2 ∷ []) ∷ []) ∷ ((1 ∷ []) ∷ []) ∷ [])
        → Memᴰ c result)
    × ((c : ℕ) → Memᴰ c [] → Memᴰ c result)
    × ((c : ℕ)
        → Memᴰ c result
        → Memᴰ c [] ⊎ SomeWorker 8 c (((4 ∷ 2 ∷ []) ∷ []) ∷ ((1 ∷ []) ∷ []) ∷ []))
worker_cpus-IsAscending_example =
    worker_cpus-IsAscending 8 (((4 ∷ 2 ∷ []) ∷ []) ∷ ((1 ∷ []) ∷ []) ∷ []) [] (omega arith) tt

worker_cpus_run :
    worker_cpus 2 (((4 ∷ 1 ∷ []) ∷ [] ∷ (3 ∷ []) ∷ []) ∷ []) [] ≡ done (0 ∷ 1 ∷ 4 ∷ [])
unfolding worker_cpus worker_cpus_of insert insert_all
worker_cpus_run = refl

parse_options-pinned_example :
    (c : Configuration) × (parse_options
        (λ t. false)
        0
        8
        (pinned_flags 2 (1 ∷ []) 4 (2 ∷ []))
        (decimal 64 ∷ [])
      ≡ done c)
    × (c.settings ≡ pinned_settings 64 2 (1 ∷ []) 4 (2 ∷ []))
    × (c.thread_counts ≡ 2 ∷ 1 ∷ [])
    × (c.fibre_counts ≡ [])
    × (c.cpu_sets ≡ map (λ n. replicate n (4 ∷ 2 ∷ [])) (2 ∷ 1 ∷ []))
    × IsAscending c.worker_cpus
    × ((x : ℕ) → x < 8 → SomeWorker 8 x c.cpu_sets → Memᴰ x c.worker_cpus)
    × ((x : ℕ) → Memᴰ x c.worker_cpus → SomeWorker 8 x c.cpu_sets)
    × (c.settings.opt.cpu ≡ minus_one)
parse_options-pinned_example =
    parse_options-pinned (λ t. false) 0 8 64 2 (1 ∷ []) 4 (2 ∷ []) (omega arith) (omega arith)
      (omega arith, (omega arith, tt)) (((λ e. omega arith), tt), (tt, tt))
      (omega arith, (omega arith, tt))

-- The name of the second file has that of the first before it: `o_-1.dat` and `o_-1.date_-1.dat`.
file_names_run : file_names ((111 ∷ []) ∷ (101 ∷ []) ∷ []) 0xffff_ffff ≡ (
  some (111 ∷ 95 ∷ 45 ∷ 49 ∷ 46 ∷ 100 ∷ 97 ∷ 116 ∷ []),
  some (111 ∷ 95 ∷ 45 ∷ 49 ∷ 46 ∷ 100 ∷ 97 ∷ 116 ∷ 101 ∷ 95 ∷ 45 ∷ 49 ∷ 46 ∷ 100 ∷ 97 ∷ 116 ∷ []),
)
unfolding file_names data_name show_int decimal decimal_from
file_names_run = refl
