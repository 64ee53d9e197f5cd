-- ===== src/Distribution/Subpath/Distribute/Layer.antt =====
-- What `doDistribute` (src/Distribution.cc) relies on in the function that lays the path of a chunk.
use cachetest.Prelude.{
  ℕ, suc, ◌+◌, ◌*◌, ◌≤◌, ◌<◌, ◌≡◌, List, ◌∷◌, map, All, Distinct, last, two32, done,
}
use cachetest.Memory.{store32}
use cachetest.Memory.Chain.{Chain}
use cachetest.Memory.Route.{word}
use cachetest.Buffer.{buffer_offset}
use cachetest.Distribution.{Generator, Distribution, with_memory}
use cachetest.Distribution.Subpath.{line_size}
use cachetest.Distribution.Subpath.Distribute.{Lay}

-- Where the chunk that starts with dataline `offset` begins, and the words of a dataline.
abbrev pub chunk_base : Distribution → ℕ → ℕ
chunk_base d offset = buffer_offset d.buffer + line_size * offset

abbrev pub words_per_line : ℕ
words_per_line = 16

-- The path of a chunk: from its first word through the words `js`, each once, to `e`.
pub record Placed (d : Distribution) (offset size : ℕ) (js : List ℕ) (e : ℕ) (d' : Distribution)
    : Type 0 where
  pub chain :
      Chain d'.buffer.memory (word (chunk_base d offset) 0) (map (word (chunk_base d offset)) js)
  pub end : e ≡ word (chunk_base d offset) (last 0 js)
  pub distinct : Distinct (0 ∷ js)
  pub bound : All (λ j. j < words_per_line * size) (0 ∷ js)
  pub before : (x : ℕ) → x < chunk_base d offset → d'.buffer.memory x ≡ d.buffer.memory x
  pub frame :
      d' ≡ record (with_memory d d'.buffer.memory) { sequence = d'.sequence; entries = d'.entries }

-- A function that lays a path of a known shape in every chunk that meets `Needs`, and leaves the
-- chunks behind it as they are needed: `left` of them, counting the present one.
pub record Layer (g : Generator) (lay : Lay g) : Type 1 where
  pub Shape : ℕ → List ℕ → Type 0
  pub Needs : (size left : ℕ) → g.State → Distribution → (offset : ℕ) → Type 0
  -- The end of the bytes that the chunks may use.
  pub limit : ℕ
  pub limit_le : limit ≤ two32
  pub places :
      (d : Distribution) (offset size left : ℕ) (s : g.State)
      → d.cacheline ≡ line_size
      → 0 < size
      → chunk_base d (offset + size) ≤ limit
      → Needs size (suc left) s d offset
      → (js : List ℕ) × (e : ℕ) × (d' : Distribution) × (s' : g.State) × (lay d offset size s
          ≡ done (e, d', s'))
        × Shape size js
        × Placed d offset size js e d'
        × ((v : ℕ)
            → Needs size left s' (with_memory d' (store32 d'.buffer.memory e v)) (offset + size))
