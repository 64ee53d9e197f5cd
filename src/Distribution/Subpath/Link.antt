-- ===== src/Distribution/Subpath/Link.antt =====
-- The loop of `uniformSubpath` (src/Distribution.cc) that lays the chain.
use cachetest.Prelude.{
  ℕ, ◌+◌, ◌*◌, ◌≤◌, ◌<◌, ◌≡◌, ◌≢◌, ◌∙◌, refl, ◌⊎◌, inl, arith, minus_one, u32, two32, List, [], ◌∷◌,
  ◌++◌, map, length, All, All_map2, Distinct, last, done, sym,
}
use mathlib.Core.List.{append-nil, append_assoc}
use cachetest.Memory.{Memory, load32, store32}
use cachetest.Memory.Words.{store32-other, load32-store32, load32-store32-Apart}
use cachetest.Memory.Chain.{Chain}
use cachetest.Distribution.Subpath.{
  path_index, index_to_shuffle, line_size, Walk, Chunk, link_step, link,
}

-- The datalines from `i` on hold the indices `xs`.
abbrev pub Indices : Memory → ℕ → ℕ → List ℕ → Type 0
Indices m base i [] = Unit
Indices m base i (x ∷ xs) = (load32 m (index_to_shuffle base i) ≡ x) × Indices m base (i + 1) xs

Indices-frame :
    (m m' : Memory) (base i : ℕ) (xs : List ℕ)
    → ((l : ℕ) → i ≤ l → load32 m' (index_to_shuffle base l) ≡ load32 m (index_to_shuffle base l))
    → Indices m base i xs
    → Indices m' base i xs
Indices-frame m m' base i [] same h = tt
Indices-frame m m' base i (x ∷ xs) same h = (
  same i (omega arith) ∙ h.0,
  Indices-frame m m' base (i + 1) xs (λ l k. same l (omega arith)) h.1,
)

module _ (c : Chunk) where
  -- A dataline of the chunk, not yet left by the chain.
  abbrev pub Free : Memory → ℕ → Type 0
  Free m l = load32 m (path_index c.base l) ≡ minus_one

  abbrev pub line : ℕ → ℕ
  line l = path_index c.base l

  -- The chunk is laid out as the layout of `CacheLine` says, and its offsets fit in a word.
  pub record IsFit : Type 0 where
    pub lines : c.cacheline ≡ line_size
    pub room : c.base + line_size * c.size ≤ two32

  -- One round reads the next index, and writes two words.
  step_memory : ℕ → Walk → ℕ → Memory
  step_memory i w x =
      store32 (store32 w.memory (index_to_shuffle c.base i) minus_one) (line w.prev) (line x)

  link_step-done :
      (i : ℕ) (w : Walk) (x : ℕ)
      → IsFit
      → load32 w.memory (index_to_shuffle c.base i) ≡ x
      → Free w.memory w.prev
      → 0 < x
      → x < c.size
      → link_step c i w
        ≡ done (record {
          memory = step_memory i w x;
          prev = x;
          sequence = w.sequence ++ u32 (c.offset + x) ∷ [];
          entries = u32 (w.entries + 1);
        })
  unfolding link_step step_memory
  link_step-done i w x fit e free pos lt = ground (
    arith,
    load32-store32-Apart w.memory (index_to_shuffle c.base i) minus_one (line w.prev),
    line_word,
  )
    where
      line_word : u32 (c.base + x * c.cacheline) ≡ line x
      line_word = let fits = fit.room in rw fit.lines (omega arith)

  step_memory_index :
      (i : ℕ) (w : Walk) (x l : ℕ)
      → i + 1 ≤ l
      → load32 (step_memory i w x) (index_to_shuffle c.base l)
        ≡ load32 w.memory (index_to_shuffle c.base l)
  unfolding step_memory
  step_memory_index i w x l h =
      load32-store32-Apart _ (line w.prev) (line x) (index_to_shuffle c.base l) (ground arith)
      ∙ load32-store32-Apart w.memory (index_to_shuffle c.base i) minus_one
          (index_to_shuffle c.base l) (inl (omega arith))

  step_memory-line :
      (i : ℕ) (w : Walk) (x l : ℕ)
      → w.prev ≢ l
      → load32 (step_memory i w x) (line l) ≡ load32 w.memory (line l)
  unfolding step_memory
  step_memory-line i w x l h =
      load32-store32-Apart _ (line w.prev) (line x) (line l) (ground arith)
      ∙ load32-store32-Apart w.memory (index_to_shuffle c.base i) minus_one (line l) (ground arith)

  step_memory_prev :
      (i : ℕ) (w : Walk) (x : ℕ)
      → line x < two32
      → load32 (step_memory i w x) (line w.prev) ≡ line x
  unfolding step_memory
  step_memory_prev i w x h = load32-store32 _ (line w.prev) (line x) h

  step_memory-other :
      (i : ℕ) (w : Walk) (x a : ℕ)
      → w.prev < c.size
      → i < c.size
      → (a < c.base) ⊎ (c.base + line_size * c.size ≤ a)
      → step_memory i w x a ≡ w.memory a
  unfolding step_memory
  step_memory-other i w x a p q h =
      store32-other _ (line w.prev) (line x) a (ground arith)
      ∙ store32-other w.memory (index_to_shuffle c.base i) minus_one a (ground arith)

  -- What the loop has done when the indices `xs` have been taken.
  pub record Linked (i : ℕ) (w : Walk) (xs : List ℕ) (w' : Walk) : Type 0 where
    pub runs : link (length xs) c i w ≡ done w'
    pub chain : Chain w'.memory (line w.prev) (map line xs)
    pub end : w'.prev ≡ last w.prev xs
    pub visited : w'.sequence ≡ w.sequence ++ map (λ x. u32 (c.offset + x)) xs
    pub count : w.entries < two32 → w'.entries ≡ u32 (w.entries + length xs)
    pub kept :
        (l : ℕ)
        → All (λ x. l ≢ x) (w.prev ∷ xs)
        → load32 w'.memory (line l) ≡ load32 w.memory (line l)
    pub outside :
        (a : ℕ) → (a < c.base) ⊎ (c.base + line_size * c.size ≤ a) → w'.memory a ≡ w.memory a

  -- The state in which the loop takes the indices `xs`.
  pub record IsReady (i : ℕ) (w : Walk) (xs : List ℕ) : Type 0 where
    pub indices : Indices w.memory c.base i xs
    pub free : All (Free w.memory) (w.prev ∷ xs)
    pub range : All (λ x. (0 < x) × (x < c.size)) xs
    pub distinct : Distinct (w.prev ∷ xs)
    pub prev_lt : w.prev < c.size
    pub rounds : i + length xs ≤ c.size

  pub link_lem :
      (i : ℕ) (w : Walk) (xs : List ℕ) → IsFit → IsReady i w xs → (w' : Walk) × Linked i w xs w'
  unfolding link
  link_lem i w [] fit r = (
    w,
    record {
      runs = refl;
      chain = tt;
      end = refl;
      visited = sym (append-nil _);
      count = λ h. omega arith;
      kept = λ l h. refl;
      outside = λ a h. refl;
    },
  )
  link_lem i w (x ∷ xs) fit r =
      let (w', t) = link_lem (i + 1) w1 xs fit ready in
      (
        w',
        record {
          runs =
              rw (link_step-done i w x fit r.indices.0 r.free.0 r.range.0.0 r.range.0.1) (t.runs);
          chain = (
            t.kept w.prev r.distinct.0
                ∙ step_memory_prev i w x (omega (arith, fit.room, r.range.0.1)),
            t.chain,
          );
          end = t.end;
          visited = t.visited ∙ append_assoc w.sequence (u32 (c.offset + x) ∷ []) _;
          count = λ h. omega (arith, t.count (omega arith));
          kept = λ l h. t.kept l h.1 ∙ step_memory-line i w x l (λ e. h.0 (sym e));
          outside = λ a h.
              t.outside a h ∙ step_memory-other i w x a r.prev_lt (omega (arith, r.rounds)) h;
        },
      )
    where
      w1 : Walk
      w1 = record {
        memory = step_memory i w x;
        prev = x;
        sequence = w.sequence ++ u32 (c.offset + x) ∷ [];
        entries = u32 (w.entries + 1);
      }

      ready : IsReady (i + 1) w1 xs
      ready = record {
        indices =
            Indices-frame w.memory w1.memory c.base (i + 1) xs (λ l h. step_memory_index i w x l h)
              r.indices.1;
        free =
            All_map2 (λ y. w.prev ≢ y) (Free w.memory) (Free w1.memory)
              (λ y ne f. step_memory-line i w x y ne ∙ f) (x ∷ xs) r.distinct.0 r.free.1;
        range = r.range.1;
        distinct = r.distinct.1;
        prev_lt = r.range.0.1;
        rounds = omega (arith, r.rounds);
      }
