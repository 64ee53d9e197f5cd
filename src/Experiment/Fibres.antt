-- ===== src/Experiment/Fibres.antt =====
-- `fibreTest` with migration and `alarm_handler` (src/cachetest.cc) on the subpaths that were set up.
use cachetest.Prelude.{ℕ, ◌+◌, ◌*◌, ◌<◌, ◌≤◌, ◌≡◌, arith, List, length, two32, minus_one}
use cachetest.Memory.{Memory}
use cachetest.Distribution.Subpath.Distribute.Layer.{words_per_line}
use cachetest.Distribution.Subpath.Distribute.Ring.{chunk_at, ring}
use cachetest.Chase.{SubpathInfo, alarm_handler}
use cachetest.Chase.Measure.{InfosFrom}
use cachetest.Chase.Migrate.{migrant_start, migrating_loop}
use cachetest.Chase.Migrate.Located.{migrating_loop-Located}
use cachetest.Chase.Migrate.Stop.{Stopped-Route}
use cachetest.Experiment.Subpaths.{InfosFrom-StartsFrom}

-- A fibre that goes round the unsplit ring of subpaths, from the first word of one: when the handler
-- goes through between two of its rounds, whichever, the index of the fibre is -1 after at most a round
-- for each word of a chunk and one more.
pub migrants-stop :
    (Shape : List ℕ → Type 0) (at per subpaths : ℕ) (m : Memory) (infos : List SubpathInfo)
    → 0 < per
    → (room : chunk_at at per subpaths ≤ two32) (count : length infos ≡ subpaths)
    → InfosFrom Shape at per (ring subpaths) m 0 infos
    → (before after j : ℕ) → j < subpaths
    → words_per_line * per + 1 ≤ after
    → (migrating_loop after infos subpaths (alarm_handler infos m) (
        migrating_loop before infos subpaths m (migrant_start infos j (chunk_at at per j) 0))).index
      ≡ minus_one
migrants-stop Shape at per subpaths m infos pos room count known before after j h enough =
    let t = migrating_loop-Located Shape at per subpaths m infos room count known before j h in
    Stopped-Route at per subpaths pos room infos m
      (InfosFrom-StartsFrom at per subpaths (ring subpaths) m infos pos room count Shape 0 infos
        known)
      count t.rest after _ t.here _ _ (omega (arith, t.steps, t.few)) t.subpath_lt
      (omega (arith, t.subpath_lt)) t.index t.inside t.route
