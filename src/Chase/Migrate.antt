-- ===== src/Chase/Migrate.antt =====
-- `migratingLoop` (src/cachetest.cc): a fibre that goes round the ring of subpaths, and migrates to
-- the cluster of each.
pub mod Located
pub mod Stop
use cachetest.Prelude.{
  ℕ, zero, suc, ◌+◌, Bool, List, [], ◌∷◌, map, get_or, leb, if◌then◌else◌, ◌==◌, u64, minus_one,
}
use cachetest.Memory.{Memory, load32}
use cachetest.Chase.{SubpathInfo}

-- The variables of the loop.
pub record Migrant : Type 0 where
  pub index : ℕ
  pub accesscount : ℕ
  pub subpath_idx : ℕ
  pub num_subpath_steps : ℕ
  pub cur_step : ℕ

-- `subpathInfo[i].length`
abbrev pub length_of : List SubpathInfo → ℕ → ℕ
length_of infos i = get_or (map (λ info. info.length) infos) i 0

unfoldable pub migrant_start : List SubpathInfo → (subpath_idx start_idx steps_offset : ℕ) → Migrant
migrant_start infos subpath_idx start_idx steps_offset = record {
  index = start_idx;
  accesscount = 0;
  subpath_idx = subpath_idx;
  num_subpath_steps = length_of infos subpath_idx;
  cur_step = steps_offset;
}

-- The next subpath, on the cluster of which the fibre goes on.
unfoldable pub migrate : List SubpathInfo → ℕ → Migrant → Migrant
migrate infos subpaths s =
    let up = u64 (s.subpath_idx + 1) in
    let to = if leb subpaths up then 0 else up in
    record s { cur_step = 0; subpath_idx = to; num_subpath_steps = length_of infos to }

-- One round of the loop, if it is not over.
unfoldable pub migrant_step : List SubpathInfo → ℕ → Memory → Migrant → Migrant
migrant_step infos subpaths m s =
    let s1 : Migrant = record s {
      index = load32 m s.index;
      accesscount = u64 (s.accesscount + 1);
      cur_step = u64 (s.cur_step + 1);
    } in
    if leb s1.num_subpath_steps s1.cur_step then migrate infos subpaths s1 else s1

-- `migratingLoop`, as far as `k` rounds of it go.
unfoldable pub migrating_loop : ℕ → List SubpathInfo → ℕ → Memory → Migrant → Migrant
migrating_loop zero infos subpaths m s = s
migrating_loop (suc k) infos subpaths m s =
    let rest = migrating_loop k infos subpaths m (migrant_step infos subpaths m s) in
    if s.index == minus_one then s else rest
