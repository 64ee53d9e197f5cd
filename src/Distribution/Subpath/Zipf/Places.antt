-- ===== src/Distribution/Subpath/Zipf/Places.antt =====
-- `SubpathDistribution::zipfSubpath` (src/Distribution.cc) from its seed to its result.
use mathlib.Core.List.{append-nil}
use mathlib.Core.List.Permᴰ
use cachetest.Memory.{store32}
use cachetest.Memory.Words.{store32-other, load32-zero}
use cachetest.Prelude.{
  All-last, subst, ◌⊎◌, inl, inr, ℕ, suc, ◌+◌, ◌-◌, ◌*◌, ◌≤◌, ◌<◌, ◌≡◌, ◌≢◌, refl, ap, sym, ◌∙◌,
  arith, List, [], ◌++◌, map, leb, ◌&&◌, true, All, All_mono, All-map, All-get_or, length,
  length-map, some, length-range_from, two32, u32, get_or, range, perm-range-lt, perm-range-length,
  done,
}
use cachetest.Buffer.{buffer_offset}
use cachetest.Distribution.{Generator, IsLawful, Distribution, with_memory}
use cachetest.Distribution.Subpath.{line_size}
use cachetest.Distribution.Subpath.Distribute.Ring.{Kept-buffer_offset}
use cachetest.Distribution.Subpath.Distribute.Layer.{words_per_line, chunk_base, Placed, Layer}
use cachetest.Distribution.Draw.{Draw}
use cachetest.Distribution.Subpath.Zipf.{draws, zipf_subpath, int_max, SumsReach, AvoidsMax}
use cachetest.Genzipf.{init_zipf}
use cachetest.Genzipf.Ranks.{IsState, init_zipf-pos}
use cachetest.Distribution.Subpath.Zipf.Drawn.{Drawn, IsFull, lines_of, draws_lem}

-- What a call notes of the path that it lays: the datalines after the first, and the count.
pub record Noted (d : Distribution) (offset : ℕ) (js : List ℕ) (d' : Distribution) : Type 0 where
  pub sequence : d'.sequence ≡ d.sequence ++ lines_of offset js
  pub entries : d'.entries ≡ u32 (d.entries + suc (length js))

module _ (g : Generator) (lawful : IsLawful g) (d : Distribution) (offset size : ℕ)
    (reaches : SumsReach g size) (s : g.State) (cl : d.cacheline ≡ line_size)
    (es : d.element_size ≡ 4) (pos : 0 < size) (room : chunk_base d (offset + size) ≤ two32)
    (seed_lt : (g.rand_int_upto (int_max - 1) s).0 + 1 ≢ int_max) where
  abbrev seed : ℕ
  seed = (g.rand_int_upto (int_max - 1) s).0 + 1

  abbrev state1 : g.State
  state1 = (g.rand_int_upto (int_max - 1) s).1

  seed-IsState : IsState seed
  seed-IsState = (omega arith, omega (arith, lawful.rand_int_upto-le (int_max - 1) s, seed_lt))

  abbrev ranks : List ℕ
  ranks = map (λ i. get_or (range size) i 0) (g.shuffle_order size state1).0

  abbrev first : Draw g
  first = record {
    memory = d.buffer.memory;
    prev = u32 (buffer_offset d.buffer + offset * d.cacheline);
    sequence = d.sequence;
    entries = u32 (d.entries + 1);
    state = (g.shuffle_order size state1).1;
  }

  zipf_subpath-draws :
      (w : Draw g)
      → draws g d offset size ranks (d.num_elements - 1) seed first ≡ done w
      → zipf_subpath g d offset size s
        ≡ done (
          w.prev,
          record (with_memory d w.memory) { sequence = w.sequence; entries = w.entries },
          (g.shuffle_order size state1).1,
        )
  unfolding zipf_subpath
  zipf_subpath-draws w e = rw (zipf_subpath, test, accepted, e) refl
    where
      test : (leb 1 seed && leb seed int_max) ≡ true
      test = ground (arith, lawful.rand_int_upto-le (int_max - 1) s)

      accepted : init_zipf seed 0 ≡ some seed
      accepted = init_zipf-pos seed 0 (omega arith) (omega (arith, seed-IsState.1))

  ranks_count : length ranks ≡ size
  ranks_count =
      length-map _ (g.shuffle_order size state1).0
      ∙ perm-range-length size (lawful.shuffle_order-perm size state1)

  ranks_lines : All (λ l. l < size) ranks
  ranks_lines =
      All-map (λ l. l < size) (λ i. get_or (range size) i 0) (g.shuffle_order size state1).0
        (All_mono {P = λ i. i < size}
          (λ i h.
            All-get_or (λ l. l < size) (range size) i 0 (omega (arith, length-range_from 0 size))
              (perm-range-lt size (Permᴰ.refl (range size))))
          (g.shuffle_order size state1).0
          (perm-range-lt size (lawful.shuffle_order-perm size state1)))

  start :
      Drawn g d offset size reaches ranks cl es pos room ranks_count ranks_lines d.buffer.memory
        first []
  start = record {
    path = record {
      chain = tt;
      end = rw cl (omega arith);
      distinct = (tt, tt);
      bound = (omega arith, tt);
      used = tt;
      unused = λ j h. refl;
      outside = λ x h. refl;
    };
    sequence = sym (append-nil d.sequence);
    entries = refl;
  }

  abbrev result : Draw g → Distribution
  result w = record (with_memory d w.memory) { sequence = w.sequence; entries = w.entries }

  pub zipf_subpath-places :
      (limit : ℕ)
      → chunk_base d (offset + size) ≤ limit
      → ((x : ℕ) → chunk_base d offset ≤ x → x < limit → d.buffer.memory x ≡ 0)
      → (js : List ℕ) × (e : ℕ) × (d' : Distribution) × (zipf_subpath g d offset size s
          ≡ done (e, d', (g.shuffle_order size (g.rand_int_upto (int_max - 1) s).1).1))
        × Placed d offset size js e d'
        × Noted d offset js d'
        × ((length js ≡ d.num_elements - 1) ⊎ IsFull size js)
        × ((x : ℕ) → chunk_base d (offset + size) ≤ x → x < limit → d'.buffer.memory x ≡ 0)
  zipf_subpath-places limit fits zeros =
      let (w, js, runs, t, ends) =
        draws_lem g d offset size reaches ranks cl es pos room ranks_count ranks_lines
          (d.num_elements - 1) seed d.buffer.memory first [] seed-IsState
          (λ j h. load32-zero d.buffer.memory _ (λ x lo hi. zeros x (omega arith) (omega arith)))
          start in
      let p = t.path in
      let no_more : 0 + (d.num_elements - 1) ≡ d.num_elements - 1 = omega arith in
      (
        js,
        w.prev,
        result w,
        zipf_subpath-draws w runs,
        record {
          chain = p.chain;
          end = p.end;
          distinct = p.distinct;
          bound = p.bound;
          before = λ x h. p.outside x (inl h);
          frame = refl;
        },
        record { sequence = t.sequence; entries = t.entries },
        subst (λ n. (length js ≡ n) ⊎ IsFull size js) no_more ends,
        λ x h lt. p.outside x (inr (omega arith)) ∙ zeros x (omega arith) lt,
      )

-- The path goes on until `n` words are used, or no word of some dataline is left.
abbrev pub IsExhausted : ℕ → ℕ → List ℕ → Type 0
IsExhausted n size js = (length js ≡ n - 1) ⊎ IsFull size js

-- What a call for the datalines from `offset` on relies on.
pub record IsFresh (g : Generator) (n limit size left : ℕ) (s : g.State) (d : Distribution)
    (offset : ℕ) : Type 0 where
  pub reaches : SumsReach g size
  pub seeds : AvoidsMax g size left s
  pub element_size : d.element_size ≡ 4
  pub num_elements : d.num_elements ≡ n
  pub zeros : (x : ℕ) → chunk_base d offset ≤ x → x < limit → d.buffer.memory x ≡ 0

pub IsFresh-next :
    (g : Generator) (n limit left : ℕ) (s : g.State) (d : Distribution) (offset size : ℕ)
    (js : List ℕ) (e : ℕ) (d' : Distribution) (v : ℕ)
    → IsFresh g n limit size (suc left) s d offset
    → Placed d offset size js e d'
    → ((x : ℕ) → chunk_base d (offset + size) ≤ x → x < limit → d'.buffer.memory x ≡ 0)
    → IsFresh g n limit size left
        (g.shuffle_order size (g.rand_int_upto (int_max - 1) s).1).1
        (with_memory d' (store32 d'.buffer.memory e v))
        (offset + size)
unfolding buffer_offset
IsFresh-next g n limit left s d offset size js e d' v f p zeros =
    let same : chunk_base (with_memory d' (store32 d'.buffer.memory e v)) (offset + size)
        ≡ chunk_base d (offset + size) =
      ap (λ a. a + line_size * (offset + size)) (Kept-buffer_offset d d' p.frame) in
    let lt = All-last (λ j. j < words_per_line * size) 0 js p.bound in
    record {
      reaches = f.reaches;
      seeds = f.seeds.1;
      element_size = ap (λ z. z.element_size) p.frame ∙ f.element_size;
      num_elements = ap (λ z. z.num_elements) p.frame ∙ f.num_elements;
      zeros = λ x h below.
          store32-other d'.buffer.memory e v x (inr (omega (arith, p.end, same, h)))
          ∙ zeros x (omega (arith, same, h)) below;
    }

-- A layer of paths, for elements of 4 bytes.
abbrev pub zipf_layer :
    (g : Generator) (n limit : ℕ) → limit ≤ two32 → IsLawful g → Layer g (zipf_subpath g)
zipf_layer g n limit limit_le lawful = record {
  Shape = IsExhausted n;
  Needs = IsFresh g n limit;
  limit = limit;
  limit_le = limit_le;
  places = λ d offset size left s cl pos room f.
      let (js, e, d', runs, placed, noted, ends, zeros) =
        zipf_subpath-places g lawful d offset size f.reaches s cl f.element_size pos
          (omega (arith, limit_le)) f.seeds.0 limit room f.zeros in
      (
        js,
        e,
        d',
        _,
        runs,
        subst (λ k. IsExhausted k size js) f.num_elements ends,
        placed,
        λ v. IsFresh-next g n limit left s d offset size js e d' v f placed zeros,
      );
}
