-- ===== src/Arguments/Cpus/Sets.antt =====
-- The sets of CPUs that `Parse_options` (src/cachetest.cc) makes of one list for all threads.
use cachetest.Prelude.{
  ℕ, suc, ◌-◌, ◌≤◌, ◌<◌, ◌≡◌, ◌≢◌, refl, inl, inr, arith, List, [], ◌∷◌, map, length, All, All_mono,
  Distinct, true, false, ltb, done, none, some, ==_self, ==_of_ne, if◌then◌else◌,
}
use cachetest.Arguments.Split.Tokens.{split-join}
use cachetest.Arguments.Cpus.{
  period, tilde, contains, replicate, SubpathCpus, is_exclusive, is_sane, least_size,
  parse_subpath_cpus, ids_of, limits, all_limits, is_in_range, cpu_setsize, is_in, to_set,
  checked_set, subpath_sets, all_sets, duplicate, parse_cpus,
}
use cachetest.Arguments.Cpus.Lists.{csv, csv_free, contains-free, parse_csv_or_range-csv}

-- The CPUs of a list that is meant for all threads of a subpath.
abbrev for_all : List ℕ → SubpathCpus
for_all ids = record { of_all = ids; of_threads = [] }

-- The second of the two checks never fails after the first: it looks at the threads' lists only
-- where there are none.
pub is_sane-is_exclusive : (cpus : SubpathCpus) → is_exclusive cpus ≡ true → is_sane cpus ≡ true
unfolding is_sane is_exclusive least_size
is_sane-is_exclusive cpus e = checks cpus.of_all cpus.of_threads e
  where
    checks :
        (ids : List ℕ) (threads : List (List ℕ))
        → is_exclusive (record { of_all = ids; of_threads = threads }) ≡ true
        → is_sane (record { of_all = ids; of_threads = threads }) ≡ true
    checks [] threads e = refl
    checks (id ∷ ids) [] e = ground arith
    checks (id ∷ ids) (t ∷ ts) e = ground (arith, e)

is_in-fresh : (x : ℕ) (ys : List ℕ) → All (λ y. x ≢ y) ys → is_in x ys ≡ false
unfolding is_in
is_in-fresh x [] h = refl
is_in-fresh x (y ∷ ys) h = rw (==_of_ne x y h.0, is_in-fresh x ys h.1) refl

to_set-Distinct : (ids : List ℕ) → Distinct ids → to_set ids ≡ ids
unfolding to_set
to_set-Distinct [] h = refl
to_set-Distinct (id ∷ ids) h = rw (to_set-Distinct ids h.1, is_in-fresh id ids h.0) refl

checked_set-Distinct : (ids : List ℕ) → Distinct ids → checked_set ids ≡ done ids
unfolding checked_set
checked_set-Distinct ids h = rw (to_set-Distinct ids h, ==_self (length ids)) refl

-- CPUs below the limit keep the pair in range.
limits_in :
    (ids : List ℕ) (low high : ℕ)
    → low ≤ high
    → high < cpu_setsize
    → All (λ id. id < cpu_setsize) ids
    → is_in_range (limits ids (low, some high)) ≡ true
unfolding limits is_in_range
limits_in [] low high h k small = ground arith
limits_in (id ∷ ids) low high h k small =
    limits_in ids (if ltb id low then id else low) (if ltb high id then id else high) (ground arith)
      (ground (arith, small.0)) small.1

all_limits-for_all :
    (id : ℕ) (ids : List ℕ)
    → All (λ x. x < cpu_setsize) (id ∷ ids)
    → is_in_range (all_limits (for_all (id ∷ ids) ∷ []) (0x7fff_ffff, none)) ≡ true
unfolding all_limits limits ids_of
all_limits-for_all id ids small =
    let some_cpu : ltb 0 (suc (length ids)) ≡ true = ground arith in
    let below : ltb id 0x7fff_ffff ≡ true = ground (arith, small.0) in
    rw (some_cpu, below) (limits_in ids id id (omega arith) small.0 small.1)

all_sets-for_all :
    (counts ids : List ℕ)
    → Distinct ids
    → all_sets true counts (replicate (length counts) (for_all ids))
      ≡ done (map (λ n. replicate n ids) counts)
unfolding all_sets subpath_sets
all_sets-for_all [] ids distinct = refl
all_sets-for_all (n ∷ counts) ids distinct =
    rw (checked_set-Distinct ids distinct, all_sets-for_all counts ids distinct) refl

for_all-is_exclusive : (id : ℕ) (ids : List ℕ) → is_exclusive (for_all (id ∷ ids)) ≡ true
unfolding is_exclusive
for_all-is_exclusive id ids = ground arith

parse_subpath_cpus-csv :
    (id : ℕ) (ids : List ℕ)
    → All (λ x. x < cpu_setsize) (id ∷ ids)
    → parse_subpath_cpus (csv (id ∷ ids)) ≡ done (for_all (id ∷ ids))
unfolding parse_subpath_cpus
parse_subpath_cpus-csv id ids small =
    let no_tilde : contains tilde (csv (id ∷ ids)) ≡ false =
      contains-free tilde (csv (id ∷ ids))
        (csv_free tilde (id ∷ ids) (inr (omega arith)) (λ e. omega arith)) in
    let exclusive = for_all-is_exclusive id ids in
    rw
      (
        no_tilde,
        (parse_csv_or_range-csv id ids
            (All_mono {P = λ x. x < cpu_setsize} (λ x h. omega arith) (id ∷ ids) small)).0,
        exclusive,
        is_sane-is_exclusive (for_all (id ∷ ids)) exclusive,
      )
      refl

-- One list of different CPUs below 1024 for all threads, as the usage message describes it, is
-- accepted with group pinning: each thread of each subpath, whatever the number of subpaths and of
-- their threads, is pinned to the CPUs of the list.
pub parse_cpus-csv :
    (threads : ℕ) (counts : List ℕ) (id : ℕ) (ids : List ℕ)
    → Distinct (id ∷ ids)
    → All (λ x. x < cpu_setsize) (id ∷ ids)
    → parse_cpus true (threads ∷ counts) (csv (id ∷ ids))
      ≡ done (map (λ n. replicate n (id ∷ ids)) (threads ∷ counts))
unfolding parse_cpus duplicate
parse_cpus-csv threads counts id ids distinct small =
    let whole =
      split-join period (csv (id ∷ ids)) []
        (csv_free period (id ∷ ids) (inl (omega arith)) (λ e. omega arith), tt) in
    let copies : length (threads ∷ counts) - 1 ≡ length counts = omega arith in
    rw
      (
        whole,
        parse_subpath_cpus-csv id ids small,
        all_limits-for_all id ids small,
        copies,
        all_sets-for_all (threads ∷ counts) (id ∷ ids) distinct,
      )
      refl
