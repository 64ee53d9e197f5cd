-- ===== src/Distribution/Uniform.antt =====
-- `UniformDistribution` (src/Distribution.cc): datalines are drawn at random, and each draw takes
-- the first free word of its dataline, if that is not the last word.
pub mod Sampled
use cachetest.Prelude.{
  ℕ, zero, suc, ◌+◌, ◌-◌, ◌*◌, ◌/◌, ◌%◌, not, ◌&&◌, Option, none, some, List, [], ◌∷◌, ◌++◌, ◌==◌,
  if◌then◌else◌, u32, u64, two64, through_int, Outcome, done, crashed, ◌>>=◌, ◌>>◌, assert,
}
use cachetest.Memory.{Memory, store32}
use cachetest.Buffer.{get_size, get_buffer_pointer, buffer_offset, is_large_buffer, get_slabs}
use cachetest.Distribution.{Generator, Distribution, with_memory}
use cachetest.Distribution.Probe.{probe}
use cachetest.Distribution.Draw.{Draw, extend}
use cachetest.Distribution.Subpath.Distribute.{is_empty}

abbrev pub nth : List ℕ → ℕ → Option ℕ
nth [] i = none
nth (x ∷ xs) zero = some x
nth (x ∷ xs) (suc i) = nth xs i

-- The bytes of a huge page.
abbrev pub huge_page : ℕ
huge_page = 0x20_0000

module _ (g : Generator) (d : Distribution) where
  -- Word `o` of dataline `idx`, as an `int` that is added to a pointer.
  unfoldable pub uniform_element : ℕ → ℕ → ℕ
  uniform_element idx o =
      through_int (idx * d.cacheline + o * d.element_size + buffer_offset d.buffer)

  -- At least two words are to a dataline, of which all but the last are tried.
  unfoldable pub uniform_draws : (lines slots : ℕ) → ℕ → Draw g → Outcome (Draw g)
  uniform_draws lines slots zero w = done w
  uniform_draws lines slots (suc k) w = do
    let m = store32 w.memory w.prev 1
    let (drawn, s) = g.rand_int w.state
    if lines == 0 then crashed else done tt
    let idx = drawn % lines
    let w1 : Draw g = record w { memory = m; state = s }
    elim (probe (slots - 1) m (uniform_element idx) 0) [
      | none ↦ done w1
      | some e ↦ uniform_draws lines slots k (extend g idx e w1)
    ]

  -- The dataline lies on a huge page; the pages are anywhere.
  unfoldable pub huge_element : (page line : ℕ) → ℕ → ℕ
  huge_element page line o =
      through_int
        (page + two64 - get_buffer_pointer d.buffer + line * d.cacheline + o * d.element_size)

  unfoldable pub huge_draws : (lines slots : ℕ) → ℕ → Draw g → Outcome (Draw g)
  huge_draws lines slots zero w = done w
  huge_draws lines slots (suc k) w = do
    let m = store32 w.memory w.prev 1
    let (drawn, s) = g.rand_int w.state
    if lines == 0 then crashed else done tt
    let idx = drawn % lines
    let lines_on_page = huge_page / d.cacheline
    if lines_on_page == 0 then crashed else done tt
    let w1 : Draw g = record w { memory = m; state = s; sequence = w.sequence ++ u32 idx ∷ [] }
    elim (nth (get_slabs d.buffer) (idx / lines_on_page)) [
      | none ↦ crashed
      | some page ↦ elim (probe (slots - 1) m (huge_element page (idx % lines_on_page)) 0) [
        | none ↦ done w1
        | some e ↦ huge_draws lines slots k (record (extend g idx e w1) { sequence = w1.sequence })
      ]
    ]

  -- The variables before the first round.
  abbrev pub first_draw : ℕ → Draw g
  first_draw prev = record {
    memory = d.buffer.memory;
    prev = prev;
    sequence = [];
    entries = 1;
    state = g.seeded d.seed;
  }

  -- The end is connected to the start.
  abbrev pub connected : Draw g → Distribution
  connected w = record (with_memory d (store32 w.memory w.prev (buffer_offset d.buffer))) {
    sequence = w.sequence;
    entries = w.entries;
  }

  unfoldable pub do_huge_distribution : Outcome Distribution
  do_huge_distribution = do
    assert (not (is_empty (get_slabs d.buffer)))
    let lines = u32 (get_size d.buffer / d.cacheline)
    let slots = u32 (d.cacheline / d.element_size)
    w ← huge_draws lines slots (d.num_elements - 1) (first_draw (buffer_offset d.buffer))
    done (connected w)

  -- The rest of `doDistribute`, where the buffer is not one of huge pages.
  unfoldable pub plain_distribution : Outcome Distribution
  plain_distribution = do
    let lines = through_int (get_size d.buffer / d.cacheline)
    let slots = through_int (d.cacheline / d.element_size)
    w ←
        uniform_draws lines slots (d.num_elements - 1)
          (first_draw (through_int (buffer_offset d.buffer)))
    done (connected w)

  unfoldable pub uniform_do_distribute : Outcome Distribution
  uniform_do_distribute =
      if is_large_buffer d.buffer && not (is_empty (get_slabs d.buffer))
      then do_huge_distribution
      else plain_distribution
