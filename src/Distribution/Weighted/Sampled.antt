-- ===== src/Distribution/Weighted/Sampled.antt =====
-- `WeightedUniform::doDistribute` (src/Distribution.cc) lays a cycle through words of the buffer.
use mathlib.Core.List.{map-append}
use cachetest.Prelude.{
  ℕ, zero, suc, ◌+◌, ◌*◌, ◌/◌, ◌≤◌, ◌<◌, ◌≡◌, ◌≢◌, refl, ap, sym, subst, ◌∙◌, ◌⊎◌, inl, inr, arith,
  List, [], ◌∷◌, ◌++◌, map, last, last-map, last-concat, All, Distinct, length, length-append,
  two32, u32, through_int, through_int_small, true, ltb, Mem-cases, done, some, none,
}
use cachetest.Memory.{load32, store32}
use cachetest.Memory.Words.{load32-zero}
use cachetest.Memory.Route.{word, Route, Route-close}
use cachetest.Buffer.{get_size, buffer_offset}
use cachetest.Distribution.{Generator, IsLawful, Distribution, with_memory}
use cachetest.Distribution.Probe.{probe, Found, probe-cases}
use cachetest.Distribution.Draw.{Draw, extend}
use cachetest.Distribution.Grow.Free.{Grown-free}
use cachetest.Distribution.Grow.{Grown}
use cachetest.Distribution.Subpath.Distribute.Layer.{words_per_line}
use cachetest.Distribution.Uniform.Sampled.{IsPlain, IsUsedUp, tried}
use cachetest.Distribution.Weighted.{
  calculate_cdf, get_next_idx, weighted_element, weighted_draws, weighted_do_distribute,
}
use cachetest.Distribution.Weighted.Visits.{visits, visits-concat, visits_again}
use cachetest.Distribution.Weighted.Search.{find_idx-inside}
use cachetest.Distribution.Weighted.Sums.{calculate_cdf-IsSums}

-- The dataline of each word.
abbrev pub lines_of : List ℕ → List ℕ
lines_of js = map (λ j. u32 (j / words_per_line)) js

module _ (g : Generator) (lawful : IsLawful g) (d : Distribution) (lines : ℕ)
    (p : IsPlain d lines) where
  abbrev base : ℕ
  base = buffer_offset d.buffer

  abbrev words : ℕ
  words = words_per_line * lines

  words_room : word base words ≤ two32
  words_room = omega (arith, p.room)

  count : get_size d.buffer / d.cacheline ≡ lines
  count = rw (p.size, p.cacheline) (omega arith)

  abbrev cdf : List ℕ
  cdf = (calculate_cdf d).0

  abbrev max_val : ℕ
  max_val = (calculate_cdf d).1

  -- The draw gives a dataline of the buffer.
  next_idx :
      (s : g.State)
      → (idx : ℕ) × (s' : g.State) × (get_next_idx g d cdf max_val s ≡ done (idx, s'))
        × (idx < lines)
  unfolding get_next_idx
  next_idx s =
      let t = calculate_cdf-IsSums d (omega (arith, count, p.room)) in
      let (idx, runs, inside) =
        find_idx-inside cdf (g.rand_exc_times max_val s).0
          (omega (arith, t.count, count, p.some_line)) in
      let small : u32 idx ≡ idx = omega (arith, t.count, count, p.room) in
      (idx, (g.rand_exc_times max_val s).1, rw (runs, small), omega (arith, t.count, count))

  element-word :
      (idx o : ℕ)
      → idx < lines
      → o < tried
      → weighted_element g d idx o ≡ word base (words_per_line * idx + o)
  unfolding weighted_element
  element-word idx o h k =
      let value : idx * d.cacheline + o * d.element_size + buffer_offset d.buffer
          ≡ word base (words_per_line * idx + o) =
        rw (p.cacheline, p.element_size) (omega arith) in
      rw value (through_int_small (word base (words_per_line * idx + o)) (omega (arith, p.room)))

  -- After the draws noted in the sequence, the path goes through `js`.
  pub record Sampled (w : Draw g) (js : List ℕ) : Type 0 where
    pub path : Grown base words d.buffer.memory w.memory w.prev js
    pub draws : length js ≤ length w.sequence
    pub visited : visits 0 (lines_of js) ≡ visits 0 w.sequence
    pub last_line : last 0 (lines_of js) ≡ last 0 w.sequence
    pub entries : u32 w.entries ≡ u32 (d.entries + length w.sequence)

  draws-stop :
      (k idx : ℕ) (s' : g.State) (w : Draw g)
      → get_next_idx g d cdf max_val w.state ≡ done (idx, s')
      → idx < lines
      → probe tried w.memory (weighted_element g d idx) 0 ≡ none
      → weighted_draws g d cdf max_val lines words_per_line (suc k) w
        ≡ done (record w { state = s' })
  unfolding weighted_draws
  draws-stop k idx s' w runs h e =
      let test : ltb idx lines ≡ true = ground arith in rw (runs, test, e)

  draws-go :
      (k idx e : ℕ) (s' : g.State) (w : Draw g)
      → get_next_idx g d cdf max_val w.state ≡ done (idx, s')
      → idx < lines
      → probe tried w.memory (weighted_element g d idx) 0 ≡ some e
      → weighted_draws g d cdf max_val lines words_per_line (suc k) w
        ≡ weighted_draws g d cdf max_val lines words_per_line k
            (extend g idx e (record w { state = s' }))
  unfolding weighted_draws
  draws-go k idx e s' w runs h f =
      let test : ltb idx lines ≡ true = ground arith in rw (runs, test, f)

  -- What the draw of the dataline `idx`, with its word `k`, notes.
  Sampled-line :
      (w : Draw g) (js js' : List ℕ) (idx k : ℕ)
      → Sampled w js
      → u32 (k / words_per_line) ≡ u32 idx
      → ((js' ≡ js) × (k ≡ last 0 js)) ⊎ (js' ≡ js ++ k ∷ [])
      → (length js' ≤ suc (length js))
        × (visits 0 (lines_of js') ≡ visits 0 (w.sequence ++ u32 idx ∷ []))
        × (last 0 (lines_of js') ≡ last 0 (w.sequence ++ u32 idx ∷ []))
  Sampled-line w js js' idx k t line (inl (same, end)) =
      let here : last 0 (lines_of js) ≡ u32 idx =
        last-map (λ j. u32 (j / words_per_line)) 0 js
        ∙ ap (λ j. u32 (j / words_per_line)) (sym end)
        ∙ line in
      rw same (
        omega arith,
        t.visited ∙ sym (visits_again 0 w.sequence (u32 idx) (sym t.last_line ∙ here)),
        here ∙ sym (last-concat 0 w.sequence (u32 idx)),
      )
  Sampled-line w js js' idx k t line (inr new) =
      rw (new, map-append, line)
        (
          omega (arith, length-append js (k ∷ [])),
          visits-concat 0 (lines_of js) w.sequence (u32 idx) t.visited t.last_line,
          last-concat 0 (lines_of js) (u32 idx) ∙ sym (last-concat 0 w.sequence (u32 idx)),
        )

  Sampled-extend :
      (w : Draw g) (js : List ℕ) (idx e : ℕ) (s' : g.State)
      → Sampled w js
      → idx < lines
      → Found w.memory (weighted_element g d idx) 0 tried e
      → (js' : List ℕ) × Sampled (extend g idx e (record w { state = s' })) js'
  unfolding extend
  Sampled-extend w js idx e s' t h f =
      let k = words_per_line * idx + f.slot in
      let at : e ≡ word base k = f.here ∙ element-word idx f.slot h (omega (arith, f.hi)) in
      let (js', longer, path) =
        Grown-free base words d.buffer.memory words_room w.memory w.prev k js t.path
          (omega (arith, f.hi)) (subst (λ a. load32 w.memory a ≡ 0) at f.free) in
      let line : u32 (k / words_per_line) ≡ u32 idx = omega (arith, f.hi) in
      let noted = Sampled-line w js js' idx k t line longer in
      (
        js',
        record {
          path =
              subst (λ a. Grown base words d.buffer.memory (store32 w.memory w.prev a) a js')
                (sym at) path;
          draws = omega (arith, t.draws, noted.0, length-append w.sequence (u32 idx ∷ []));
          visited = noted.1;
          last_line = noted.2;
          entries = omega (arith, t.entries, length-append w.sequence (u32 idx ∷ []));
        },
      )

  -- If none of the words tried is free, they all are on the path.
  none-IsUsedUp :
      (w : Draw g) (js : List ℕ) (idx : ℕ)
      → Sampled w js
      → idx < lines
      → ((o : ℕ) → 0 ≤ o → o < 0 + tried → load32 w.memory (weighted_element g d idx o) ≢ 0)
      → IsUsedUp lines js
  none-IsUsedUp w js idx t h full = record {
    line = idx;
    line_lt = h;
    words = λ o lt. elim (Mem-cases (words_per_line * idx + o) (0 ∷ js)) [
      | inl on ↦ on
      | inr off ↦ absurd (
          full o (omega arith) (omega arith) (
            ap (load32 w.memory) (element-word idx o h lt)
            ∙ t.path.unused (words_per_line * idx + o) off
            ∙ load32-zero d.buffer.memory (word base (words_per_line * idx + o))
                (λ x lo hi. p.zeros x (omega arith) (omega arith))))
    ];
  }

  weighted_draws_lem :
      (k : ℕ) (w : Draw g) (js : List ℕ)
      → Sampled w js
      → (w' : Draw g) × (js' : List ℕ) × (weighted_draws g d cdf max_val lines words_per_line k w
          ≡ done w')
        × Sampled w' js'
        × ((length w'.sequence ≡ length w.sequence + k) ⊎ IsUsedUp lines js')
  unfolding weighted_draws extend
  weighted_draws_lem zero w js t = (w, js, refl, t, inl (omega arith))
  weighted_draws_lem (suc k) w js t =
      let (idx, s', runs, h) = next_idx w.state in
      elim (probe-cases tried w.memory (weighted_element g d idx) 0) [
        | inl (e, some_found, f) ↦
            let (js1, t1) = Sampled-extend w js idx e s' t h f in
            let (w', js', rest, t', ends) =
              weighted_draws_lem k (extend g idx e (record w { state = s' })) js1 t1 in
            (w', js', draws-go k idx e s' w runs h some_found ∙ rest, t', longer w' idx e s' ends)
        | inr (none_found, full) ↦ (
          record w { state = s' },
          js,
          draws-stop k idx s' w runs h none_found,
          record {
            path = t.path;
            draws = t.draws;
            visited = t.visited;
            last_line = t.last_line;
            entries = t.entries;
          },
          inr (none-IsUsedUp w js idx t h full),
        )
      ]
    where
      longer :
          (w' : Draw g) {js' : List ℕ} (idx e : ℕ) (s' : g.State)
          → (length w'.sequence ≡ length (extend g idx e (record w { state = s' })).sequence + k)
            ⊎ IsUsedUp lines js'
          → (length w'.sequence ≡ length w.sequence + suc k) ⊎ IsUsedUp lines js'
      longer w' idx e s' (inl same) = inl (omega (arith, length-append w.sequence (u32 idx ∷ [])))
      longer w' idx e s' (inr used) = inr used

  abbrev first : Draw g
  first = record {
    memory = d.buffer.memory;
    prev = through_int base;
    sequence = [];
    entries = d.entries;
    state = g.seeded d.seed;
  }

  first-Sampled : Sampled first []
  first-Sampled = record {
    path = record {
      chain = tt;
      end = through_int_small base (omega (arith, p.room, p.some_line)) ∙ omega arith;
      distinct = (tt, tt);
      bound = (omega (arith, p.some_line), tt);
      used = tt;
      unused = λ j h. refl;
      outside = λ x h. refl;
    };
    draws = omega arith;
    visited = refl;
    last_line = refl;
    entries = omega arith;
  }

  abbrev connected : Draw g → Distribution
  connected w = record (with_memory d (store32 w.memory w.prev base)) {
    sequence = w.sequence;
    entries = w.entries;
  }

  weighted_runs :
      (w : Draw g)
      → weighted_draws g d cdf max_val lines words_per_line d.num_elements first ≡ done w
      → weighted_do_distribute g d ≡ done (connected w)
  unfolding weighted_do_distribute
  weighted_runs w e = rw (p.plain, datalines, slots, e)
    where
      datalines : through_int (get_size d.buffer / d.cacheline) ≡ lines
      datalines = rw count (through_int_small lines (omega (arith, p.room)))

      slots : through_int (d.cacheline / d.element_size) ≡ words_per_line
      slots = rw (p.cacheline, p.element_size)

-- On a plain buffer the call returns, whatever the random numbers: one cycle goes from the first
-- word of the buffer through different words of it, no more than were drawn, and back. It comes to
-- the datalines that were drawn, in order, where datalines that are the same as the one before are not
-- counted. There are `num_elements` draws, or all words of some dataline but its last are used up. The count of entries
-- grows by the number of the draws.
pub weighted_do_distribute-Route :
    (g : Generator) (lawful : IsLawful g) (d : Distribution) (lines : ℕ) (p : IsPlain d lines)
    → (js : List ℕ) × (d' : Distribution) × (weighted_do_distribute g d ≡ done d')
      × Route d'.buffer.memory (buffer_offset d.buffer) 0 js (buffer_offset d.buffer)
      × Distinct (0 ∷ js)
      × All (λ j. j < words_per_line * lines) (0 ∷ js)
      × (length js ≤ length d'.sequence)
      × (visits 0 (lines_of js) ≡ visits 0 d'.sequence)
      × ((length d'.sequence ≡ d.num_elements) ⊎ IsUsedUp lines js)
      × (u32 d'.entries ≡ u32 (d.entries + length d'.sequence))
weighted_do_distribute-Route g lawful d lines p =
    let (w, js, runs, t, ends) =
      weighted_draws_lem g lawful d lines p d.num_elements (first g lawful d lines p) []
        (first-Sampled g lawful d lines p) in
    let path = t.path in
    let no_more : 0 + d.num_elements ≡ d.num_elements = omega arith in
    (
      js,
      connected g lawful d lines p w,
      weighted_runs g lawful d lines p w runs,
      rw path.end (
          Route-close w.memory (buffer_offset d.buffer) 0 js (buffer_offset d.buffer)
            (omega (arith, p.room, p.some_line)) path.distinct path.chain),
      path.distinct,
      path.bound,
      t.draws,
      t.visited,
      subst (λ n. (length w.sequence ≡ n) ⊎ IsUsedUp lines js) no_more ends,
      t.entries,
    )
