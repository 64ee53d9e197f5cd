-- ===== src/Distribution/Subpath/Zipf.antt =====
-- `SubpathDistribution::zipfSubpath` (src/Distribution.cc): datalines are drawn by rank, and each
-- draw takes the first free word of its dataline.
pub mod Drawn
pub mod Places
use cachetest.Prelude.{
  ℕ, zero, suc, ◌<◌, ◌≡◌, ◌≢◌, true, ◌+◌, ◌-◌, ◌*◌, ◌/◌, not, ◌&&◌, none, some, List, [], ◌∷◌, ◌++◌,
  map, ltb, leb, get_or, range, u32, pred64, Option, exited, Outcome, done, ◌>>=◌, ◌>>◌, assert,
  exit_if,
}
use cachetest.Memory.{Memory, store32}
use cachetest.Buffer.{buffer_offset}
use cachetest.Distribution.{Generator, Distribution, with_memory}
use cachetest.Genzipf.{init_zipf, zipf}
use cachetest.Genzipf.Ranks.{IsState}
use cachetest.Distribution.Probe.{probe}
use cachetest.Distribution.Draw.{Draw, extend}

-- The rounds of the loop of `zipf` that draws a number: it ends in the first or never.
abbrev pub zipf_rounds : ℕ
zipf_rounds = 1

-- `INT_MAX`
abbrev pub int_max : ℕ
int_max = 0x7fff_ffff

module _ (g : Generator) where
  module _ (d : Distribution) (offset size : ℕ) (ranks : List ℕ) where
    -- Slot `o` of dataline `line`.
    unfoldable pub element : ℕ → ℕ → ℕ
    element line o = u32 (buffer_offset d.buffer + line * d.cacheline + o * d.element_size)

    -- `x` is the state of `rand_val`.
    unfoldable pub draws : ℕ → (x : ℕ) → Draw g → Outcome (Draw g)
    draws zero x w = done w
    draws (suc k) x w = do
      let m = store32 w.memory w.prev 1
      (rank, x') ← zipf g.sum_reaches zipf_rounds size x
      let idx = get_or ranks (pred64 rank) 0
      assert (ltb idx size)
      let line = idx + offset
      let w1 : Draw g = record w { memory = m }
      elim (probe (d.cacheline / d.element_size) m (element line) 0) [
        | none ↦ done w1
        | some e ↦ draws k x' (extend g line e w1)
      ]

  -- `init_zipf` sets the static variable of `rand_val`, whatever it was before.
  unfoldable pub zipf_subpath :
      Distribution → ℕ → ℕ → g.State → Outcome (ℕ × Distribution × g.State)
  zipf_subpath d offset size s = do
    let (drawn, s) = g.rand_int_upto (int_max - 1) s
    let seed = drawn + 1
    assert (leb 1 seed && leb seed int_max)
    x ← accepted (init_zipf seed 0)
    let (order, s) = g.shuffle_order size s
    let ranks = map (λ i. get_or (range size) i 0) order
    let w : Draw g = record {
      memory = d.buffer.memory;
      prev = u32 (buffer_offset d.buffer + offset * d.cacheline);
      sequence = d.sequence;
      entries = u32 (d.entries + 1);
      state = s;
    }
    w' ← draws d offset size ranks (d.num_elements - 1) x w
    done (
      w'.prev,
      record (with_memory d w'.memory) { sequence = w'.sequence; entries = w'.entries },
      s,
    )
    where
      accepted : Option ℕ → Outcome ℕ
      accepted none = exited 255
      accepted (some x) = done x

-- The sum of the probabilities of all `n` values, which is 1 up to the rounding of doubles, reaches each number that
-- may be drawn.
abbrev pub SumsReach : Generator → (n : ℕ) → Type 0
SumsReach g n = (z : ℕ) → IsState z → g.sum_reaches n n z ≡ true

-- `INT_MAX`, from which `zipf` never returns, is not among the seeds drawn in the next calls on chunks
-- of `size` datalines.
abbrev pub AvoidsMax : (g : Generator) (size calls : ℕ) → g.State → Type 0
AvoidsMax g size zero s = Unit
AvoidsMax g size (suc calls) s =
    let (drawn, s1) = g.rand_int_upto (int_max - 1) s in
    (drawn + 1 ≢ int_max) × AvoidsMax g size calls (g.shuffle_order size s1).1
