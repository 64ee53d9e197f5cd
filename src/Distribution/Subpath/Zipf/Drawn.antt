-- ===== src/Distribution/Subpath/Zipf/Drawn.antt =====
-- The loop of `SubpathDistribution::zipfSubpath` (src/Distribution.cc) lays one pointer chain
-- through words of its chunk.
use mathlib.Core.List.{append_assoc, map-append}
use mathlib.Core.List.{Memᴰ}
use cachetest.Prelude.{
  ◌⊎◌, ℕ, zero, suc, ◌+◌, ◌*◌, ◌/◌, ◌≤◌, ◌<◌, ◌≡◌, refl, ap, ◌∙◌, inl, inr, arith, List, [], ◌∷◌,
  ◌++◌, map, All, length, length-append, two32, u32, pred64, get_or, All-get_or, done, Option, ltb,
  true, none, some,
}
use cachetest.Memory.{Memory, load32, store32}
use cachetest.Memory.Route.{word}
use cachetest.Distribution.{Generator, Distribution}
use cachetest.Distribution.Probe.{probe}
use cachetest.Distribution.Grow.{Grown}
use cachetest.Distribution.Grow.Round.{Longer, round-cases}
use cachetest.Distribution.Subpath.{line_size}
use cachetest.Distribution.Subpath.Distribute.Layer.{chunk_base, words_per_line}
use cachetest.Distribution.Draw.{Draw, extend}
use cachetest.Distribution.Subpath.Zipf.{element, draws, zipf_rounds, SumsReach}
use cachetest.Genzipf.{zipf}
use cachetest.Genzipf.Ranks.{IsState, zipf_lem}

-- The dataline of word `j`, and what the loop notes for the words `js`.
abbrev pub lines_of : ℕ → List ℕ → List ℕ
lines_of offset js = map (λ j. u32 (offset + j / words_per_line)) js

-- All words of some dataline of a chunk of `size` datalines are on the path.
pub record IsFull (size : ℕ) (js : List ℕ) : Type 0 where
  pub line : ℕ
  pub line_lt : line < size
  pub words : (o : ℕ) → o < words_per_line → Memᴰ (words_per_line * line + o) (0 ∷ js)

module _ (g : Generator) (d : Distribution) (offset size : ℕ) (reaches : SumsReach g size)
    (ranks : List ℕ) (cl : d.cacheline ≡ line_size) (es : d.element_size ≡ 4) (pos : 0 < size)
    (room : chunk_base d (offset + size) ≤ two32) (count : length ranks ≡ size)
    (lines : All (λ l. l < size) ranks) where
  abbrev base : ℕ
  base = chunk_base d offset

  abbrev words : ℕ
  words = words_per_line * size

  words_room : word base words ≤ two32
  words_room = omega arith

  -- The path that the variables describe, from the bytes `m0` on.
  pub record Drawn (m0 : Memory) (w : Draw g) (js : List ℕ) : Type 0 where
    pub path : Grown base words m0 w.memory w.prev js
    pub sequence : w.sequence ≡ d.sequence ++ lines_of offset js
    pub entries : w.entries ≡ u32 (d.entries + suc (length js))

  element-word :
      (idx o : ℕ)
      → idx < size
      → o < words_per_line
      → element g d offset size ranks (idx + offset) o ≡ word base (words_per_line * idx + o)
  unfolding element
  element-word idx o h k = rw (cl, es) (omega arith)

  -- A call of `zipf` from the state `x` that gives the rank of dataline `idx`, and the new state.
  record Ranked (x : ℕ) : Type 0 where
    rank : ℕ
    x' : ℕ
    runs : zipf g.sum_reaches zipf_rounds size x ≡ done (rank, x')
    state : IsState x'
    idx_lt : get_or ranks (pred64 rank) 0 < size

  abbrev idx_of : {x : ℕ} → Ranked x → ℕ
  idx_of r = get_or ranks (pred64 r.rank) 0

  zipf-Ranked : (x : ℕ) → IsState x → Ranked x
  zipf-Ranked x h =
      let (rank, x', runs, low, high, state, _) = zipf_lem g.sum_reaches 0 size x pos reaches h in
      record {
        rank = rank;
        x' = x';
        runs = runs;
        state = state;
        idx_lt =
            All-get_or (λ l. l < size) ranks (pred64 rank) 0 (omega (arith, low, high, count))
              lines;
      }

  -- The variables with the end marked, and what the probe finds.
  abbrev marked : Draw g → Draw g
  marked w = record w { memory = store32 w.memory w.prev 1 }

  abbrev found : {x : ℕ} → Ranked x → Draw g → Option ℕ
  found r w =
      probe words_per_line (store32 w.memory w.prev 1)
        (element g d offset size ranks (idx_of r + offset)) 0

  draws-stop :
      (k x : ℕ) (r : Ranked x) (w : Draw g)
      → found r w ≡ none
      → draws g d offset size ranks (suc k) x w ≡ done (marked w)
  unfolding draws
  draws-stop k x r w e = rw (r.runs, test, slots, e) refl
    where
      test : ltb (idx_of r) size ≡ true
      test = ground (arith, r.idx_lt)

      slots : d.cacheline / d.element_size ≡ words_per_line
      slots = rw (cl, es)

  draws-go :
      (k x e : ℕ) (r : Ranked x) (w : Draw g)
      → found r w ≡ some e
      → draws g d offset size ranks (suc k) x w
        ≡ draws g d offset size ranks k r.x' (extend g (idx_of r + offset) e (marked w))
  unfolding draws
  draws-go k x e r w f = rw (r.runs, test, slots, f) refl
    where
      test : ltb (idx_of r) size ≡ true
      test = ground (arith, r.idx_lt)

      slots : d.cacheline / d.element_size ≡ words_per_line
      slots = rw (cl, es)

  -- What the round finds, of the path that goes through `js`.
  abbrev RoundLonger :
      {x : ℕ} → Ranked x → (m0 : Memory) (w : Draw g) (js : List ℕ) → Drawn m0 w js → ℕ → Type 0
  RoundLonger r m0 w js t =
      Longer base words m0 w.memory w.prev js words_per_line
        (element g d offset size ranks (idx_of r + offset)) (λ o. words_per_line * idx_of r + o)
        words_room (λ o h. element-word (idx_of r) o (r.idx_lt) h) (λ o h. omega (arith, r.idx_lt))
        t.path

  Drawn-extend :
      (x : ℕ) (r : Ranked x) (m0 : Memory) (w : Draw g) (js : List ℕ) (t : Drawn m0 w js) (e : ℕ)
      (f : RoundLonger r m0 w js t e)
      → Drawn m0
          (extend g (idx_of r + offset) e (marked w))
          (js ++ (words_per_line * idx_of r + f.slot) ∷ [])
  unfolding extend
  Drawn-extend x r m0 w js t e f =
      let k = words_per_line * idx_of r + f.slot in
      let line : (idx_of r + offset) ≡ offset + k / words_per_line = omega (arith, f.slot_lt) in
      record {
        path = f.path;
        sequence =
            rw (map-append, line)
              (ap (λ xs. xs ++ u32 (offset + k / words_per_line) ∷ []) t.sequence
                ∙ append_assoc d.sequence (lines_of offset js) _);
        entries = omega (arith, t.entries, length-append js (k ∷ []));
      }

  -- The loop ends. Each of the `k` rounds has added a word to the path, or the loop has met a
  -- dataline that is full.
  pub draws_lem :
      (k x : ℕ) (m0 : Memory) (w : Draw g) (js : List ℕ)
      → IsState x
      → ((j : ℕ) → j < words → load32 m0 (word base j) ≡ 0)
      → Drawn m0 w js
      → (w' : Draw g) × (js' : List ℕ) × (draws g d offset size ranks k x w ≡ done w')
        × Drawn m0 w' js'
        × ((length js' ≡ length js + k) ⊎ IsFull size js')
  unfolding draws
  draws_lem zero x m0 w js state zeros t = (w, js, refl, t, inl (omega arith))
  draws_lem (suc k) x m0 w js state zeros t =
      let r = zipf-Ranked x state in
      elim (round-cases base words m0 w.memory w.prev js words_per_line
        (element g d offset size ranks (idx_of r + offset)) (λ o. words_per_line * idx_of r + o)
        words_room (λ o h. element-word (idx_of r) o (r.idx_lt) h) (λ o h. omega (arith, r.idx_lt))
        t.path zeros) [
          | inl (e, some_found, f) ↦
              let (w', js', runs, t', ends) =
                draws_lem k r.x' m0 (extend g (idx_of r + offset) e (marked w)) _ r.state zeros
                  (Drawn-extend x r m0 w js t e f) in
              (w', js', draws-go k x e r w some_found ∙ runs, t', longer _ ends)
          | inr (none_found, stuck) ↦ (
            marked w,
            js,
            draws-stop k x r w none_found,
            record { path = stuck.path; sequence = t.sequence; entries = t.entries },
            inr (record { line = idx_of r; line_lt = r.idx_lt; words = stuck.on }),
          )
        ]
    where
      longer :
          {js' : List ℕ} (j : ℕ)
          → (length js' ≡ length (js ++ j ∷ []) + k) ⊎ IsFull size js'
          → (length js' ≡ length js + suc k) ⊎ IsFull size js'
      longer j (inl e) = inl (omega (arith, length-append js (j ∷ [])))
      longer j (inr full) = inr full
