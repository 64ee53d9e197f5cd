-- ===== src/Arguments/Cpus.antt =====
-- The part of `Parse_options` (src/cachetest.cc) on threads, fibres and the CPUs that they are pinned
-- to.
pub mod Lists
pub mod Sets
pub mod Workers
use cachetest.Prelude.{
  ℕ, zero, suc, ◌+◌, ◌-◌, Bool, true, false, not, ◌&&◌, ◌||◌, List, [], ◌∷◌, ◌++◌, map, length,
  range_from, range, Option, some, none, ◌==◌, ltb, leb, if◌then◌else◌, two64, Outcome, done,
  aborted, crashed, ◌>>=◌, ◌>>◌, assert,
}
use cachetest.Arguments.Split.{Text, find, split}
use cachetest.Arguments.Numbers.{stoi, stoull}

abbrev pub comma : ℕ
comma = 44

abbrev pub dash : ℕ
dash = 45

abbrev pub period : ℕ
period = 46

abbrev pub tilde : ℕ
tilde = 126

-- A loop that turns each element into another, and ends with the first failure.
abbrev pub each {ℓ κ} : {A : Type ℓ} {B : Type κ} → (A → Outcome B) → List A → Outcome (List B)
each f [] = done []
each f (x ∷ xs) = f x >>= λ y. each f xs >>= λ ys. done (y ∷ ys)

abbrev pub is_nil {ℓ} : {A : Type ℓ} → List A → Bool
is_nil [] = true
is_nil (x ∷ xs) = false

abbrev pub replicate {ℓ} : {A : Type ℓ} → ℕ → A → List A
replicate zero x = []
replicate (suc n) x = x ∷ replicate n x

-- `npos != text.find(...)`
unfoldable pub contains : ℕ → Text → Bool
contains c text = elim (find (c ∷ []) text) [ none ↦ false | some parts ↦ true ]

-- The number of threads of each subpath (`-T`), and that of its fibres (`-F`).
unfoldable pub parse_counts : Text → Outcome (List ℕ)
parse_counts text = split text (comma ∷ []) >>= each stoull

unfoldable pub thread_counts : Text → Outcome (List ℕ)
thread_counts text = if is_nil text then done (1 ∷ []) else parse_counts text

unfoldable pub fibre_counts : Text → (num_subpaths : ℕ) → Outcome (List ℕ)
fibre_counts text num_subpaths =
    if is_nil text
    then done []
    else (parse_counts text >>= λ counts. assert (length counts == num_subpaths) >> done counts)

-- `INT_MAX`
abbrev pub last_int : ℕ
last_int = 0x7fff_ffff

-- The numbers from the first of two texts to the second. The counter is an `int`: if the second is
-- `INT_MAX` it overflows, and the loop adds numbers without end.
unfoldable pub interval : List Text → Outcome (List ℕ)
interval (from ∷ to ∷ []) = stoi from >>= λ first. stoi to >>= λ last.
    if last == last_int then crashed else done (range_from first (last + 1 - first))
interval parts = aborted

-- `parseCSVOrRange`
unfoldable pub parse_csv_or_range : Text → Outcome (List ℕ)
parse_csv_or_range text =
    if contains dash text
    then (split text (dash ∷ []) >>= interval)
    else (split text (comma ∷ []) >>= each stoi)

-- `SubpathCPUs`: the CPUs of all threads of a subpath, or the CPUs of each.
pub record SubpathCpus : Type 0 where
  pub of_all : List ℕ
  pub of_threads : List (List ℕ)

-- The fold of the sizes with `std::min`.
unfoldable pub least_size : List (List ℕ) → ℕ → ℕ
least_size [] least = least
least_size (ids ∷ rest) least =
    least_size rest (if ltb (length ids) least then length ids else least)

-- The two sanity checks on the CPUs of a subpath.
unfoldable pub is_exclusive : SubpathCpus → Bool
is_exclusive cpus =
    if ltb 0 (length cpus.of_all)
    then not (ltb 0 (length cpus.of_threads))
    else ltb 0 (length cpus.of_threads)

unfoldable pub is_sane : SubpathCpus → Bool
is_sane cpus = 0 == length cpus.of_all || ltb 0 (least_size cpus.of_threads (two64 - 1))

unfoldable pub parse_subpath_cpus : Text → Outcome SubpathCpus
parse_subpath_cpus text =
    if contains tilde text
    then (split text (tilde ∷ []) >>= each parse_csv_or_range >>= λ threads.
        checked (record { of_all = []; of_threads = threads }))
    else (parse_csv_or_range text >>= λ ids. checked (record { of_all = ids; of_threads = [] }))
  where
    checked : SubpathCpus → Outcome SubpathCpus
    checked cpus = assert (is_exclusive cpus) >> (assert (is_sane cpus) >> done cpus)

-- The CPUs that the folds of the next check go through, for one subpath.
unfoldable pub ids_of : SubpathCpus → List ℕ
ids_of cpus = if ltb 0 (length cpus.of_all) then cpus.of_all else concat cpus.of_threads
  where
    concat : List (List ℕ) → List ℕ
    concat [] = []
    concat (ids ∷ rest) = ids ++ concat rest

-- The folds for the smallest and the largest CPU. `none` stands for `INT_MIN`.
unfoldable pub limits : List ℕ → ℕ × Option ℕ → ℕ × Option ℕ
limits [] pair = pair
limits (id ∷ ids) (low, none) = limits ids ((if ltb id low then id else low), some id)
limits (id ∷ ids) (low, some high) =
    limits ids ((if ltb id low then id else low), some (if ltb high id then id else high))

unfoldable pub all_limits : List SubpathCpus → ℕ × Option ℕ → ℕ × Option ℕ
all_limits [] pair = pair
all_limits (cpus ∷ rest) pair = all_limits rest (limits (ids_of cpus) pair)

abbrev pub cpu_setsize : ℕ
cpu_setsize = 1024

-- The check of the limits. `mainThreadCPUId` is never set, and has no part in it.
unfoldable pub is_in_range : ℕ × Option ℕ → Bool
is_in_range (low, none) = false
is_in_range (low, some high) = leb low high && ltb high cpu_setsize

unfoldable pub is_in : ℕ → List ℕ → Bool
is_in x [] = false
is_in x (y ∷ ys) = x == y || is_in x ys

-- An `unordered_set` of the elements of a list, in some order.
unfoldable pub to_set : List ℕ → List ℕ
to_set [] = []
to_set (id ∷ ids) = let set = to_set ids in if is_in id set then set else id ∷ set

-- A set, if the list names no CPU twice.
unfoldable pub checked_set : List ℕ → Outcome (List ℕ)
checked_set ids = assert (length ids == length (to_set ids)) >> done (to_set ids)

-- The sets of the threads of one subpath.
unfoldable pub subpath_sets :
    (group_pinning : Bool) (threads : ℕ) → SubpathCpus → Outcome (List (List ℕ))
subpath_sets group_pinning threads cpus =
    if ltb 0 (length cpus.of_threads)
    then (assert (threads == length cpus.of_threads) >> each checked_set cpus.of_threads)
    else if group_pinning
    then (checked_set cpus.of_all >>= λ ids. done (replicate threads ids))
    else (assert (threads == length cpus.of_all) >> done (map (λ id. id ∷ []) cpus.of_all))

-- The loop over the subpaths.
unfoldable pub all_sets :
    (group_pinning : Bool) (counts : List ℕ) → List SubpathCpus → Outcome (List (List (List ℕ)))
all_sets group_pinning [] list = done []
all_sets group_pinning (threads ∷ counts) [] = crashed
all_sets group_pinning (threads ∷ counts) (cpus ∷ list) =
    subpath_sets group_pinning threads cpus >>= λ sets.
    all_sets group_pinning counts list >>= λ rest. done (sets ∷ rest)

-- A single set of CPUs is meant for all subpaths.
unfoldable pub duplicate : (num_subpaths : ℕ) → List SubpathCpus → List SubpathCpus
duplicate num_subpaths [] = []
duplicate num_subpaths (cpus ∷ []) = cpus ∷ replicate (num_subpaths - 1) cpus
duplicate num_subpaths (cpus ∷ next ∷ rest) = cpus ∷ next ∷ rest

-- The sets that `-C` stands for.
unfoldable pub parse_cpus :
    (group_pinning : Bool) (counts : List ℕ) → Text → Outcome (List (List (List ℕ)))
parse_cpus group_pinning counts text = do
  list ← split text (period ∷ []) >>= each parse_subpath_cpus
  assert (is_in_range (all_limits list (0x7fff_ffff, none)))
  assert (1 == length list || length counts == length list)
  all_sets group_pinning counts (duplicate (length counts) list)

-- The empty sets without `-C`.
unfoldable pub no_cpus : (threads fibres : List ℕ) → List (List (List ℕ))
no_cpus threads fibres = map (λ n. replicate n []) (if is_nil fibres then threads else fibres)

-- `uniqueWorkerCPUIdSet`, a `std::set`.
unfoldable pub insert : ℕ → List ℕ → List ℕ
insert id [] = id ∷ []
insert id (x ∷ xs) =
    let rest = insert id xs in
    if id == x then x ∷ xs else if ltb id x then id ∷ x ∷ xs else x ∷ rest

unfoldable pub insert_all : List ℕ → List ℕ → List ℕ
insert_all [] set = set
insert_all (id ∷ ids) set = insert_all ids (insert id set)

-- The CPUs of the threads of one subpath. An empty set stands for every CPU, and ends the loop.
unfoldable pub worker_cpus_of : (hardware : ℕ) → List (List ℕ) → List ℕ → Outcome (List ℕ)
worker_cpus_of hardware [] set = done set
worker_cpus_of hardware ([] ∷ sets) set =
    assert (ltb 0 hardware) >> done (insert_all (range hardware) set)
worker_cpus_of hardware ((id ∷ ids) ∷ sets) set =
    worker_cpus_of hardware sets (insert_all (id ∷ ids) set)

unfoldable pub worker_cpus : (hardware : ℕ) → List (List (List ℕ)) → List ℕ → Outcome (List ℕ)
worker_cpus hardware [] set = done set
worker_cpus hardware (sets ∷ rest) set =
    worker_cpus_of hardware sets set >>= λ more. worker_cpus hardware rest more
