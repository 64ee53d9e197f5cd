-- ===== src/Distribution/Draw.antt =====
-- The variables that the loops of the random patterns share (src/Distribution.cc).
use cachetest.Prelude.{ℕ, ◌+◌, List, [], ◌∷◌, ◌++◌, u32}
use cachetest.Memory.{Memory, store32}
use cachetest.Distribution.{Generator}

module _ (g : Generator) where
  pub record Draw : Type 0 where
    pub memory : Memory
    pub prev : ℕ
    pub sequence : List ℕ
    pub entries : ℕ
    pub state : g.State

  -- A free word is linked to, and becomes the end of the path.
  unfoldable pub extend : ℕ → ℕ → Draw → Draw
  extend line element w = record {
    memory = store32 w.memory w.prev element;
    prev = element;
    sequence = w.sequence ++ u32 line ∷ [];
    entries = u32 (w.entries + 1);
    state = w.state;
  }
