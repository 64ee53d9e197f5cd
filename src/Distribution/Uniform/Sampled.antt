-- ===== src/Distribution/Uniform/Sampled.antt =====
-- `UniformDistribution::doDistribute` (src/Distribution.cc) lays a cycle through words of the buffer.
use mathlib.Core.List.{Memᴰ, map-append}
use cachetest.Prelude.{
  subst, All-concat, length_le_of_Distinct, ℕ, zero, suc, ◌+◌, ◌-◌, ◌*◌, ◌/◌, ◌%◌, ◌≤◌, ◌<◌, ◌≡◌,
  refl, ap, ◌∙◌, ◌⊎◌, inl, inr, arith, List, [], ◌∷◌, ◌++◌, map, All, Distinct, length,
  length-append, two32, u32, through_int, through_int_small, false, not, ◌&&◌, ◌==◌, Option, done,
  some, none,
}
use cachetest.Memory.{store32}
use cachetest.Memory.Words.{load32-zero}
use cachetest.Memory.Route.{word, Route, Route-close}
use cachetest.Buffer.{get_size, buffer_offset, is_large_buffer, get_slabs}
use cachetest.Distribution.{Generator, Distribution}
use cachetest.Distribution.Probe.{probe}
use cachetest.Distribution.Draw.{Draw, extend}
use cachetest.Distribution.Grow.{Grown}
use cachetest.Distribution.Grow.Round.{Longer, round-cases}
use cachetest.Distribution.Subpath.{line_size}
use cachetest.Distribution.Subpath.Distribute.{is_empty}
use cachetest.Distribution.Subpath.Distribute.Layer.{words_per_line}
use cachetest.Distribution.Uniform.{
  uniform_element, uniform_draws, first_draw, connected, plain_distribution, uniform_do_distribute,
}

-- The words of a dataline that are tried.
abbrev pub tried : ℕ
tried = 15

-- All words of some dataline but its last are on the path.
pub record IsUsedUp (lines : ℕ) (js : List ℕ) : Type 0 where
  pub line : ℕ
  pub line_lt : line < lines
  pub words : (o : ℕ) → o < tried → Memᴰ (words_per_line * line + o) (0 ∷ js)

-- The pattern is for a buffer of `lines` datalines of 64 bytes that is not one of huge pages, with
-- zeros in it, and offsets into it are of the type `int`.
pub record IsPlain (d : Distribution) (lines : ℕ) : Type 0 where
  pub plain : (is_large_buffer d.buffer && not (is_empty (get_slabs d.buffer))) ≡ false
  pub cacheline : d.cacheline ≡ line_size
  pub element_size : d.element_size ≡ 4
  pub size : get_size d.buffer ≡ line_size * lines
  pub some_line : 0 < lines
  pub room : buffer_offset d.buffer + line_size * lines ≤ 0x8000_0000
  pub zeros :
      (x : ℕ)
      → buffer_offset d.buffer ≤ x
      → x < buffer_offset d.buffer + line_size * lines
      → d.buffer.memory x ≡ 0

module _ (g : Generator) (d : Distribution) (lines : ℕ) (p : IsPlain d lines) where
  abbrev base : ℕ
  base = buffer_offset d.buffer

  abbrev words : ℕ
  words = words_per_line * lines

  words_room : word base words ≤ two32
  words_room = omega (arith, p.room)

  pub record Sampled (w : Draw g) (js : List ℕ) : Type 0 where
    pub path : Grown base words d.buffer.memory w.memory w.prev js
    pub slots : All (λ j. j % words_per_line < tried) (0 ∷ js)
    pub sequence : w.sequence ≡ map (λ j. u32 (j / words_per_line)) js
    pub entries : w.entries ≡ u32 (suc (length js))

  abbrev idx_of : Draw g → ℕ
  idx_of w = (g.rand_int w.state).0 % lines

  idx_lt : (w : Draw g) → idx_of w < lines
  idx_lt w = omega (arith, p.some_line)

  element-word :
      (idx o : ℕ)
      → idx < lines
      → o < tried
      → uniform_element g d idx o ≡ word base (words_per_line * idx + o)
  unfolding uniform_element
  element-word idx o h k =
      let value : idx * d.cacheline + o * d.element_size + buffer_offset d.buffer
          ≡ word base (words_per_line * idx + o) =
        rw (p.cacheline, p.element_size) (omega arith) in
      rw value (through_int_small (word base (words_per_line * idx + o)) (omega (arith, p.room)))

  abbrev marked : Draw g → Draw g
  marked w = record w { memory = store32 w.memory w.prev 1; state = (g.rand_int w.state).1 }

  abbrev found : Draw g → Option ℕ
  found w = probe tried (store32 w.memory w.prev 1) (uniform_element g d (idx_of w)) 0

  some_lines : (lines == 0) ≡ false
  some_lines = ground (arith, p.some_line)

  draws-stop :
      (k : ℕ) (w : Draw g)
      → found w ≡ none
      → uniform_draws g d lines words_per_line (suc k) w ≡ done (marked w)
  unfolding uniform_draws
  draws-stop k w e = rw (some_lines, e)

  draws-go :
      (k e : ℕ) (w : Draw g)
      → found w ≡ some e
      → uniform_draws g d lines words_per_line (suc k) w
        ≡ uniform_draws g d lines words_per_line k (extend g (idx_of w) e (marked w))
  unfolding uniform_draws
  draws-go k e w f = rw (some_lines, f)

  abbrev RoundLonger : (w : Draw g) (js : List ℕ) → Sampled w js → ℕ → Type 0
  RoundLonger w js t =
      Longer base words d.buffer.memory w.memory w.prev js tried (uniform_element g d (idx_of w))
        (λ o. words_per_line * idx_of w + o) words_room
        (λ o h. element-word (idx_of w) o (idx_lt w) h) (λ o h. omega (arith, idx_lt w)) t.path

  Sampled-extend :
      (w : Draw g) (js : List ℕ) (t : Sampled w js) (e : ℕ) (f : RoundLonger w js t e)
      → Sampled (extend g (idx_of w) e (marked w)) (js ++ (words_per_line * idx_of w + f.slot) ∷ [])
  unfolding extend
  Sampled-extend w js t e f =
      let k = words_per_line * idx_of w + f.slot in
      let line : idx_of w ≡ k / words_per_line = omega (arith, f.slot_lt) in
      record {
        path = f.path;
        slots =
            All-concat (λ j. j % words_per_line < tried) (0 ∷ js) k t.slots
              (omega (arith, f.slot_lt));
        sequence = rw (map-append, ← line) (ap (λ xs. xs ++ u32 (idx_of w) ∷ []) t.sequence);
        entries = omega (arith, t.entries, length-append js (k ∷ []));
      }

  -- The loop ends. Each of the `k` rounds has added a word to the path, or the loop has met a
  -- dataline that is used up.
  uniform_draws_lem :
      (k : ℕ) (w : Draw g) (js : List ℕ)
      → Sampled w js
      → (w' : Draw g) × (js' : List ℕ) × (uniform_draws g d lines words_per_line k w ≡ done w')
        × Sampled w' js'
        × ((length js' ≡ length js + k) ⊎ IsUsedUp lines js')
  unfolding uniform_draws
  uniform_draws_lem zero w js t = (w, js, refl, t, inl (omega arith))
  uniform_draws_lem (suc k) w js t =
      elim (round-cases base words d.buffer.memory w.memory w.prev js tried
        (uniform_element g d (idx_of w)) (λ o. words_per_line * idx_of w + o) words_room
        (λ o h. element-word (idx_of w) o (idx_lt w) h) (λ o h. omega (arith, idx_lt w)) t.path
        (λ j h.
          load32-zero d.buffer.memory (word base j)
            (λ x lo hi. p.zeros x (omega arith) (omega arith)))) [
              | inl (e, some_found, f) ↦
                  let (w', js', runs, t', ends) =
                    uniform_draws_lem k (extend g (idx_of w) e (marked w)) _
                      (Sampled-extend w js t e f) in
                  (w', js', draws-go k e w some_found ∙ runs, t', longer _ ends)
              | inr (none_found, stuck) ↦ (
                marked w,
                js,
                draws-stop k w none_found,
                record {
                  path = stuck.path;
                  slots = t.slots;
                  sequence = t.sequence;
                  entries = t.entries;
                },
                inr (record { line = idx_of w; line_lt = idx_lt w; words = stuck.on }),
              )
            ]
    where
      longer :
          {js' : List ℕ} (j : ℕ)
          → (length js' ≡ length (js ++ j ∷ []) + k) ⊎ IsUsedUp lines js'
          → (length js' ≡ length js + suc k) ⊎ IsUsedUp lines js'
      longer j (inl e) = inl (omega (arith, length-append js (j ∷ [])))
      longer j (inr used) = inr used

  abbrev first : Draw g
  first = first_draw g d (through_int base)

  start_offset : through_int base ≡ word base 0
  start_offset = through_int_small base (omega (arith, p.room, p.some_line)) ∙ omega arith

  first-Sampled : Sampled first []
  first-Sampled = record {
    path = record {
      chain = tt;
      end = start_offset;
      distinct = (tt, tt);
      bound = (omega (arith, p.some_line), tt);
      used = tt;
      unused = λ j h. refl;
      outside = λ x h. refl;
    };
    slots = (omega arith, tt);
    sequence = refl;
    entries = refl;
  }

  uniform_runs :
      (w : Draw g)
      → uniform_draws g d lines words_per_line (d.num_elements - 1) first ≡ done w
      → uniform_do_distribute g d ≡ done (connected g d w)
  unfolding uniform_do_distribute plain_distribution
  uniform_runs w e = rw (p.plain, datalines, slots, e)
    where
      datalines : through_int (get_size d.buffer / d.cacheline) ≡ lines
      datalines =
          let value : get_size d.buffer / d.cacheline ≡ lines =
            rw (p.size, p.cacheline) (omega arith) in
          rw value (through_int_small lines (omega (arith, p.room)))

      slots : through_int (d.cacheline / d.element_size) ≡ words_per_line
      slots = rw (p.cacheline, p.element_size)

  -- The cycle that `doDistribute` lays: from the first word of the buffer through the words `js`.
  pub record Cycle (js : List ℕ) (d' : Distribution) : Type 0 where
    pub route : Route d'.buffer.memory base 0 js base
    pub distinct : Distinct (0 ∷ js)
    pub bound : All (λ j. j < words) (0 ∷ js)
    pub slots : All (λ j. j % words_per_line < tried) (0 ∷ js)
    pub ends : (length js ≡ d.num_elements - 1) ⊎ IsUsedUp lines js
    pub sequence : d'.sequence ≡ map (λ j. u32 (j / words_per_line)) js
    pub entries : d'.entries ≡ suc (length js)

-- On a plain buffer the call returns, whatever the random numbers: one cycle goes from the first
-- word of the buffer through different words of it and back. It has `num_elements` words, or has
-- used up all words of some dataline but its last; the last word of a dataline is never on the cycle.
-- The sequence names the dataline of each word
-- after the first, and the count of entries is the number of the words.
pub uniform_do_distribute-Cycle :
    (g : Generator) (d : Distribution) (lines : ℕ) (p : IsPlain d lines)
    → (js : List ℕ) × (d' : Distribution) × (uniform_do_distribute g d ≡ done d')
      × Cycle g d lines p js d'
uniform_do_distribute-Cycle g d lines p =
    let (w, js, runs, t, ends) =
      uniform_draws_lem g d lines p (d.num_elements - 1) (first g d lines p) []
        (first-Sampled g d lines p) in
    let path = t.path in
    let no_more : 0 + (d.num_elements - 1) ≡ d.num_elements - 1 = omega arith in
    let few = length_le_of_Distinct (words_per_line * lines) (0 ∷ js) path.distinct path.bound in
    (
      js,
      connected g d w,
      uniform_runs g d lines p w runs,
      record {
        route = rw path.end (
            Route-close w.memory (buffer_offset d.buffer) 0 js (buffer_offset d.buffer)
              (omega (arith, p.room, p.some_line)) path.distinct path.chain);
        distinct = path.distinct;
        bound = path.bound;
        slots = t.slots;
        ends = subst (λ n. (length js ≡ n) ⊎ IsUsedUp lines js) no_more ends;
        sequence = t.sequence;
        entries = omega (arith, t.entries, p.room);
      },
    )
