-- ===== src/Chase.antt =====
-- The pointer chasing of the experiment (src/cachetest.cc): the subpaths are measured, split into
-- cycles of their own, chased, and broken when the time is up.
pub mod Measure
pub mod Split
pub mod Alarm
pub mod Race
pub mod Migrate
pub mod Fibres
use cachetest.Prelude.{
  Outcome, done, aborted, crashed, out_of_fuel, ◌>>=◌, ◌>>◌, Bool, ℕ, zero, suc, ◌+◌, ◌*◌, ◌/◌, ◌%◌,
  Option, none, some, List, [], ◌∷◌, ◌==◌, if◌then◌else◌, u32, u64, minus_one,
}
use cachetest.Memory.{Memory, load32, store32}

-- `SubpathInfo`
pub record SubpathInfo : Type 0 where
  pub start_idx : ℕ
  pub end_idx : ℕ
  pub length : ℕ

-- The `while` loop of `collectPointerChasingSubpathInfo`: from `idx`, until the word that is read is
-- `goal`.
unfoldable pub measure : ℕ → Memory → (goal start idx length : ℕ) → Outcome SubpathInfo
measure zero m goal start idx length = out_of_fuel
measure (suc k) m goal start idx length =
    let next = load32 m idx in
    let rest = measure k m goal start next (length + 1) in
    if goal == next
    then done (record { start_idx = start; end_idx = idx; length = length })
    else rest

-- `collectPointerChasingSubpathInfo`, from subpath `i` on, with `fuel` for each of the walks.
-- `at` is `bufferOffset`, `slice` is `subpathBufferLength`.
unfoldable pub collect_from :
    (fuel : ℕ) → Memory → (at slice subpaths k i : ℕ) → Outcome (List SubpathInfo)
collect_from fuel m at slice subpaths zero i = done []
collect_from fuel m at slice subpaths (suc k) i = do
  let start = u32 (at + i * slice)
  let goal = u32 (at + (i + 1) % subpaths * slice)
  info ← measure fuel m goal start start 1
  infos ← collect_from fuel m at slice subpaths k (i + 1)
  done (info ∷ infos)

-- `assert(subpathInfo.size() > 0)`
abbrev pub non_empty : List SubpathInfo → Outcome (List SubpathInfo)
non_empty [] = aborted
non_empty (info ∷ infos) = done (info ∷ infos)

-- `opt.dataset / numSubpaths` faults for no subpaths.
unfoldable pub collect_pointer_chasing_subpath_info :
    (fuel : ℕ) → Memory → (at dataset subpaths : ℕ) → Outcome (List SubpathInfo)
collect_pointer_chasing_subpath_info fuel m at dataset subpaths = do
  if subpaths == 0 then crashed else done tt
  non_empty (← collect_from fuel m at (dataset / subpaths) subpaths subpaths 0)

-- `splitPointerChasingPath`: the last word of each subpath is made to point to its first.
unfoldable pub split_pointer_chasing_path : List SubpathInfo → Memory → Memory
split_pointer_chasing_path [] m = m
split_pointer_chasing_path (info ∷ infos) m =
    split_pointer_chasing_path infos (store32 m info.end_idx info.start_idx)

-- `alarm_handler`: each subpath is broken at its first word.
unfoldable pub alarm_handler : List SubpathInfo → Memory → Memory
alarm_handler [] m = m
alarm_handler (info ∷ infos) m = alarm_handler infos (store32 m info.start_idx minus_one)

-- A thread in `loop`: the variables `index` and `accesscount`.
pub record Chaser : Type 0 where
  pub index : ℕ
  pub accesscount : ℕ

-- One round of `loop`, if it is not over.
unfoldable pub chase_step : Memory → Chaser → Chaser
chase_step m c = record { index = load32 m c.index; accesscount = u64 (c.accesscount + 1) }

unfoldable pub stopped : Chaser → Bool
stopped c = c.index == minus_one

-- `loop` on a memory that does not change any more.
unfoldable pub loop : ℕ → Memory → Chaser → Outcome Chaser
loop zero m c = if stopped c then done c else out_of_fuel
loop (suc k) m c = let rest = loop k m (chase_step m c) in if stopped c then done c else rest
