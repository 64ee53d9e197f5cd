-- ===== src/Distribution/Subpath/Distribute/Ring.antt =====
-- `SubpathDistribution::doDistribute` (src/Distribution.cc) links the paths of all chunks to a ring.
use cachetest.Prelude.{
  ℕ, zero, suc, ◌+◌, ◌*◌, ◌%◌, ◌≤◌, ◌<◌, ◌≡◌, refl, ap, subst, ◌∙◌, inl, inr, arith, List, ◌∷◌, All,
  All_mono, Distinct, last, two32, u32, u64, done, eq_cases,
}
use cachetest.Memory.{Memory, store32}
use cachetest.Memory.Words.{load32-ext, store32-other}
use cachetest.Memory.Route.{word, Route, Route-close, Route-frame}
use cachetest.Buffer.{buffer_offset}
use cachetest.Distribution.{Generator, Distribution, with_memory}
use cachetest.Distribution.Subpath.{line_size}
use cachetest.Distribution.Subpath.Distribute.{Lay, chunks}
use cachetest.Distribution.Subpath.Distribute.Layer.{chunk_base, words_per_line, Placed, Layer}

-- Chunk `i` of `subpaths` lies before their end.
pub chunk_room : (i subpaths per : ℕ) → i < subpaths → i * per + per ≤ subpaths * per
chunk_room i subpaths per h = grind arith

-- The first byte of chunk `i`, where `at` is the offset of the buffer and `per` counts datalines.
abbrev pub chunk_at : ℕ → ℕ → ℕ → ℕ
chunk_at at per i = at + line_size * (i * per)

-- Chunk `i` holds a path: from its first word through distinct words of the chunk to the first
-- word of chunk `next i`.
pub record Closed (Shape : List ℕ → Type 0) (at per : ℕ) (next : ℕ → ℕ) (m : Memory) (i : ℕ)
    : Type 0 where
  pub steps : List ℕ
  pub shape : Shape steps
  pub distinct : Distinct (0 ∷ steps)
  pub bound : All (λ j. j < words_per_line * per) (0 ∷ steps)
  pub route : Route m (chunk_at at per i) 0 steps (chunk_at at per (next i))

-- In the ring, the next chunk of the last is the first.
abbrev pub ring : ℕ → ℕ → ℕ
ring subpaths i = (i + 1) % subpaths

module _ (Shape : List ℕ → Type 0) (at per : ℕ) (next : ℕ → ℕ) where
  -- What lies in other chunks does not matter.
  pub Closed-Route :
      (m m' : Memory) (i : ℕ)
      → ((x : ℕ) → chunk_at at per i ≤ x → x < chunk_at at per i + line_size * per → m' x ≡ m x)
      → (c : Closed Shape at per next m i)
      → Route m' (chunk_at at per i) 0 c.steps (chunk_at at per (next i))
  Closed-Route m m' i same c =
      Route-frame m m' (chunk_at at per i) 0 c.steps _
        (All_mono {P = λ j. j < words_per_line * per}
          (λ j h.
            load32-ext m m' (word (chunk_at at per i) j)
              (λ x lo hi. same x (omega arith) (omega arith)))
          (0 ∷ c.steps) c.bound)
        c.route

  abbrev pub Closed-frame :
      (m m' : Memory) (i : ℕ)
      → ((x : ℕ) → chunk_at at per i ≤ x → x < chunk_at at per i + line_size * per → m' x ≡ m x)
      → Closed Shape at per next m i
      → Closed Shape at per next m' i
  Closed-frame m m' i same c = record {
    steps = c.steps;
    shape = c.shape;
    distinct = c.distinct;
    bound = c.bound;
    route = Closed-Route m m' i same c;
  }

  -- The path of a chunk, closed by the write of `doDistribute`.
  Placed-Closed :
      (d : Distribution) (i : ℕ) (js : List ℕ) (e : ℕ) (d' : Distribution)
      → buffer_offset d.buffer ≡ at
      → Shape js
      → Placed d (i * per) per js e d'
      → chunk_at at per (next i) < two32
      → Closed Shape at per next (store32 d'.buffer.memory e (chunk_at at per (next i))) i
  Placed-Closed d i js e d' same shape p small = record {
    steps = js;
    shape = shape;
    distinct = p.distinct;
    bound = p.bound;
    route =
        rw (← same, p.end)
          (Route-close d'.buffer.memory (chunk_base d (i * per)) 0 js _ (omega arith) p.distinct
            p.chain);
  }

-- What `d'` keeps of `d`: all but the bytes, the sequence and the count of entries.
abbrev pub Kept : Distribution → Distribution → Type 0
Kept d d' =
    d' ≡ record (with_memory d d'.buffer.memory) { sequence = d'.sequence; entries = d'.entries }

Kept-trans :
    (d d1 d' : Distribution) (m : Memory) → Kept d d1 → Kept (with_memory d1 m) d' → Kept d d'
Kept-trans d d1 d' m p q =
    q
    ∙ ap
        (λ z. record (with_memory z d'.buffer.memory) {
          sequence = d'.sequence;
          entries = d'.entries;
        })
        p

Kept-cacheline : (d d' : Distribution) → Kept d d' → d'.cacheline ≡ d.cacheline
Kept-cacheline d d' p = ap (λ z. z.cacheline) p

pub Kept-buffer_offset :
    (d d' : Distribution) → Kept d d' → buffer_offset d'.buffer ≡ buffer_offset d.buffer
unfolding buffer_offset
Kept-buffer_offset d d' p = ap (λ z. buffer_offset z.buffer) p

buffer_offset-with_memory :
    (d : Distribution) (m : Memory)
    → buffer_offset (with_memory d m).buffer ≡ buffer_offset d.buffer
unfolding buffer_offset
buffer_offset-with_memory d m = refl

module _ (g : Generator) (lay : Lay g) (layer : Layer g lay) (at per subpaths : ℕ) (pos : 0 < per)
    (room : chunk_at at per subpaths ≤ layer.limit) where
  -- The chunks before `i` hold their paths, and those from `i` on can be laid.
  pub record Ready (left : ℕ) (s : g.State) (i : ℕ) (d : Distribution) : Type 0 where
    pub cacheline : d.cacheline ≡ line_size
    pub offset : buffer_offset d.buffer ≡ at
    pub needs : layer.Needs per left s d (i * per)
    pub closed : (j : ℕ) → j < i → Closed (layer.Shape per) at per (ring subpaths) d.buffer.memory j

  abbrev target : ℕ → ℕ
  target i = chunk_at at per ((i + 1) % subpaths)

  target_room : (i : ℕ) → i < subpaths → target i + line_size * per ≤ two32
  target_room i h =
      omega (arith, layer.limit_le, chunk_room ((i + 1) % subpaths) subpaths per (omega arith))

  step-Ready :
      (k : ℕ) (s s' : g.State) (i : ℕ) (d : Distribution) (js : List ℕ) (e : ℕ) (d1 : Distribution)
      → i < subpaths
      → Ready (suc k) s i d
      → layer.Shape per js
      → Placed d (i * per) per js e d1
      → ((v : ℕ)
          → layer.Needs per k s' (with_memory d1 (store32 d1.buffer.memory e v)) (i * per + per))
      → Ready k s' (i + 1) (with_memory d1 (store32 d1.buffer.memory e (target i)))
  step-Ready k s s' i d js e d1 h r shape p needs = record {
    cacheline = Kept-cacheline d d1 p.frame ∙ r.cacheline;
    offset = buffer_offset-with_memory d1 _ ∙ Kept-buffer_offset d d1 p.frame ∙ r.offset;
    needs =
        subst (λ o. layer.Needs per k s' (with_memory d1 (store32 d1.buffer.memory e (target i))) o)
          (omega arith) (needs (target i));
    closed = λ j lt. elim (eq_cases j i) [
      | inl here ↦ rw here (
          Placed-Closed (layer.Shape per) at per (ring subpaths) d i js e d1 r.offset shape p
            (omega (arith, target_room i h)))
      | inr before ↦
          Closed-frame (layer.Shape per) at per (ring subpaths) d.buffer.memory _ j
            (λ x lo hi.
              store32-other d1.buffer.memory e (target i) x
                (inl (omega (arith, p.end, r.offset, chunk_room j i per (omega arith))))
              ∙ p.before x (omega (arith, r.offset, chunk_room j i per (omega arith))))
            (r.closed j (omega arith))
    ];
  }

  -- One round of the loop.
  chunks_step :
      (k i : ℕ) (d d1 : Distribution) (e : ℕ) (s s' : g.State)
      → i < subpaths
      → Ready (suc k) s i d
      → lay d (i * per) per s ≡ done (e, d1, s')
      → chunks g lay subpaths per (suc k) i d s
        ≡ chunks g lay subpaths per k
            (i + 1)
            (with_memory d1 (store32 d1.buffer.memory e (target i)))
            s'
  unfolding chunks
  chunks_step k i d d1 e s s' h r runs = rw (first, runs, second, third)
    where
      first : u64 (i * per) ≡ i * per
      first = omega (arith, layer.limit_le, chunk_room i subpaths per h)

      second : u64 ((i + 1) % subpaths * per) ≡ (i + 1) % subpaths * per
      second =
          omega (arith, layer.limit_le, chunk_room ((i + 1) % subpaths) subpaths per (omega arith))

      third : u32 (buffer_offset d.buffer + (i + 1) % subpaths * per * d.cacheline) ≡ target i
      third = rw r.cacheline (omega (arith, r.offset, target_room i h))

  -- The loop ends, and every chunk then holds its path.
  pub chunks-Closed :
      (k i : ℕ) (d : Distribution) (s : g.State)
      → i + k ≡ subpaths
      → Ready k s i d
      → (d' : Distribution) × (s' : g.State) × (chunks g lay subpaths per k i d s ≡ done (d', s'))
        × ((j : ℕ)
            → j < subpaths
            → Closed (layer.Shape per) at per (ring subpaths) d'.buffer.memory j)
        × Kept d d'
  unfolding chunks
  chunks-Closed zero i d s e r = (d, s, refl, (λ j h. r.closed j (omega arith)), refl)
  chunks-Closed (suc k) i d s e r =
      let h : i < subpaths = omega arith in
      let fits = chunk_room i subpaths per h in
      let (js, last, d1, s1, runs, shape, placed, needs) =
        layer.places d (i * per) per k s r.cacheline pos (omega (arith, r.offset)) r.needs in
      let (d', s', ends, closed, kept) =
        chunks-Closed k (i + 1) (with_memory d1 (store32 d1.buffer.memory last (target i))) s1
          (omega arith) (step-Ready k s s1 i d js last d1 h r shape placed needs) in
      (
        d',
        s',
        chunks_step k i d d1 last s s1 h r runs ∙ ends,
        closed,
        Kept-trans d d1 d' (store32 d1.buffer.memory last (target i)) placed.frame kept,
      )
