-- ===== src/Distribution/Subpath.antt =====
-- `SubpathDistribution::uniformSubpath` (src/Distribution.cc): a chunk of the buffer is filled with
-- -1, its datalines are numbered and shuffled, and a pointer chain is laid through them.
pub mod Fill
pub mod Lines
pub mod Link
pub mod Prepare
pub mod Uniform
pub mod Zipf
pub mod Distribute
use cachetest.Prelude.{
  ℕ, zero, suc, ◌+◌, ◌-◌, ◌*◌, ◌/◌, ◌%◌, not, ◌&&◌, List, [], ◌∷◌, ◌++◌, ltb, leb, ◌==◌,
  if◌then◌else◌, length, get_or, u32, u64, pred64, minus_one, Outcome, done, ◌>>=◌, ◌>>◌, assert,
  exit_if,
}
use cachetest.Memory.{Memory, load32, store32}
use cachetest.Buffer.{buffer_offset}
use cachetest.Distribution.{Generator, Distribution, with_memory}

-- `sizeof(CacheLine)`, and the offsets of its fields `pathIndex` and `indexToShuffle`.
abbrev pub line_size : ℕ
line_size = 64

abbrev pub path_index : ℕ → ℕ → ℕ
path_index base i = base + line_size * i

abbrev pub index_to_shuffle : ℕ → ℕ → ℕ
index_to_shuffle base i = base + line_size * i + 4

-- The words at `base + i`, `base + i + 1`, … are set to -1: `k` of them, each a byte further on.
unfoldable pub fill : ℕ → ℕ → ℕ → Memory → Memory
fill zero i base m = m
fill (suc k) i base m = fill k (i + 1) base (store32 m (base + i) minus_one)

-- Index `i + 1` is written to dataline `i`, for `k` datalines.
unfoldable pub write_indices : ℕ → ℕ → ℕ → Memory → Memory
write_indices zero i base m = m
write_indices (suc k) i base m =
    write_indices k (i + 1) base (store32 m (index_to_shuffle base i) (u32 (i + 1)))

-- `std::shuffle` of the datalines, given where each comes from.
unfoldable pub shuffle_lines : List ℕ → ℕ → Memory → Memory
shuffle_lines order base m x =
    if leb base x && ltb x (base + line_size * length order)
    then m (path_index base (get_or order ((x - base) / line_size) 0) + (x - base) % line_size)
    else m x

-- The variables of the loop that lays the chain.
pub record Walk : Type 0 where
  pub memory : Memory
  pub prev : ℕ
  pub sequence : List ℕ
  pub entries : ℕ

-- What the loop leaves alone: `base` is `bufferOffset + offsetBytes`, where `cachelineArray` begins.
pub record Chunk : Type 0 where
  pub base : ℕ
  pub offset : ℕ
  pub size : ℕ
  pub cacheline : ℕ

-- One round: the next index is taken from dataline `i`, and the previous dataline linked to it.
unfoldable pub link_step : Chunk → ℕ → Walk → Outcome Walk
link_step c i w = do
  let next = load32 w.memory (index_to_shuffle c.base i)
  assert (ltb 0 next && ltb next c.size)
  let m = store32 w.memory (index_to_shuffle c.base i) minus_one
  assert (minus_one == load32 m (path_index c.base w.prev))
  done (record {
    memory = store32 m (path_index c.base w.prev) (u32 (c.base + next * c.cacheline));
    prev = next;
    sequence = w.sequence ++ u32 (c.offset + next) ∷ [];
    entries = u32 (w.entries + 1);
  })

unfoldable pub link : ℕ → Chunk → ℕ → Walk → Outcome Walk
link zero c i w = done w
link (suc k) c i w = link_step c i w >>= link k c (i + 1)

module _ (g : Generator) where
  -- The result is the offset of the last, unwritten entry of the path.
  unfoldable pub uniform_subpath :
      Distribution → ℕ → ℕ → g.State → Outcome (ℕ × Distribution × g.State)
  uniform_subpath d offset size s = do
    let at = buffer_offset d.buffer
    let offset_bytes = u32 (offset * d.cacheline)
    let base = at + offset_bytes
    let filled = fill (u64 (size * d.cacheline)) 0 base d.buffer.memory
    exit_if (not (64 == d.cacheline)) 255
    let indexed = write_indices (pred64 size) 0 base filled
    let (order, s') = g.shuffle_order (pred64 size) s
    let c : Chunk = record { base = base; offset = offset; size = size; cacheline = d.cacheline }
    let w : Walk = record {
      memory = shuffle_lines order base indexed;
      prev = 0;
      sequence = d.sequence ++ u32 (offset + 0) ∷ [];
      entries = u32 (d.entries + 1);
    }
    w' ← link (pred64 size) c 0 w
    done (
      u32 (at + offset_bytes + w'.prev * d.cacheline),
      record (with_memory d w'.memory) { sequence = w'.sequence; entries = w'.entries },
      s',
    )
