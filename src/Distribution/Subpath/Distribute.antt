-- ===== src/Distribution/Subpath/Distribute.antt =====
-- `SubpathDistribution::doDistribute` (src/Distribution.cc): a path in each chunk, and the end of
-- each linked to the start of the next.
pub mod Layer
pub mod Uniform
pub mod Ring
pub mod Whole
use cachetest.Prelude.{
  ℕ, zero, suc, ◌+◌, ◌*◌, ◌/◌, ◌%◌, Bool, true, false, ◌&&◌, not, List, [], ◌∷◌, ◌==◌,
  if◌then◌else◌, u32, u64, through_int, Outcome, done, exited, crashed, ◌>>=◌, ◌>>◌, assert,
  exit_if,
}
use cachetest.Memory.{store32}
use cachetest.Buffer.{get_size, buffer_offset, is_large_buffer, get_slabs}
use cachetest.Distribution.{Generator, Distribution, with_memory}
use cachetest.Distribution.Subpath.{uniform_subpath}
use cachetest.Distribution.Subpath.Zipf.{zipf_subpath}

abbrev pub is_empty : List ℕ → Bool
is_empty [] = true
is_empty (x ∷ xs) = false

module _ (g : Generator) where
  -- What lays the path of one chunk.
  abbrev pub Lay : Type 0
  Lay = Distribution → ℕ → ℕ → g.State → Outcome (ℕ × Distribution × g.State)

  -- `subpaths` chunks of `per` datalines; chunk `i` and the `k - 1` after it are done.
  unfoldable pub chunks :
      Lay → ℕ → ℕ → ℕ → ℕ → Distribution → g.State → Outcome (Distribution × g.State)
  chunks lay subpaths per zero i d s = done (d, s)
  chunks lay subpaths per (suc k) i d s = do
    (end, d', s') ← lay d (u64 (i * per)) per s
    let next = u64 ((i + 1) % subpaths * per)
    let m = store32 d'.buffer.memory end (u32 (buffer_offset d.buffer + next * d.cacheline))
    chunks lay subpaths per k (i + 1) (with_memory d' m) s'

  unfoldable pub subpath_do_distribute :
      (subpaths : ℕ) (zipf : Bool) → Distribution → Outcome Distribution
  subpath_do_distribute subpaths zipf d = do
    exit_if (is_large_buffer d.buffer && not (is_empty (get_slabs d.buffer))) 255
    let d0 = record d { sequence = []; entries = 0 }
    let datalines = through_int (get_size d.buffer / d.cacheline)
    if subpaths == 0 then crashed else done tt
    let per = through_int (datalines / subpaths)
    assert (datalines % subpaths == 0)
    let lay : Lay = if zipf then zipf_subpath g else uniform_subpath g
    (d', s) ← chunks lay subpaths per subpaths 0 d0 (g.seeded d.seed)
    done d'
