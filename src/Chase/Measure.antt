-- ===== src/Chase/Measure.antt =====
-- `collectPointerChasingSubpathInfo` (src/cachetest.cc) on a buffer whose chunks form a ring.
use cachetest.Prelude.{
  false, ℕ, zero, suc, ◌+◌, ◌*◌, ◌/◌, ◌%◌, ◌≤◌, ◌<◌, ◌≡◌, ◌≢◌, refl, ap, sym, inl, inr, arith, List,
  [], ◌∷◌, length, All, All_map2, length_le_of_Distinct, last, two32, u32, done, ◌==◌, ==_self,
  ==_of_ne, order_cases, mul_div,
}
use cachetest.Memory.{Memory}
use cachetest.Memory.Route.{word, Route}
use cachetest.Distribution.Subpath.{line_size}
use cachetest.Distribution.Subpath.Distribute.Layer.{words_per_line}
use cachetest.Distribution.Subpath.Distribute.Ring.{chunk_at, chunk_room, ring, Closed}
use cachetest.Chase.{
  SubpathInfo, measure, non_empty, collect_from, collect_pointer_chasing_subpath_info,
}

-- The walk ends at the last word of its route.
measure-Route :
    (k : ℕ) (m : Memory) (base i : ℕ) (js : List ℕ) (goal start n : ℕ)
    → Route m base i js goal
    → All (λ j. goal ≢ word base j) js
    → length js < k
    → measure k m goal start (word base i) n
      ≡ done (record { start_idx = start; end_idx = word base (last i js); length = n + length js })
unfolding measure
measure-Route zero m base i js goal start n r off fuel = absurd (omega arith)
measure-Route (suc k) m base i [] goal start n r off fuel =
    let zero_more : n ≡ n + 0 = omega arith in rw (r.0, ==_self goal, ← zero_more)
measure-Route (suc k) m base i (j ∷ js) goal start n r off fuel =
    let one_more : n + suc (length js) ≡ n + 1 + length js = omega arith in
    rw (r.0, ==_of_ne goal (word base j) off.0, one_more)
      (measure-Route k m base j js goal start (n + 1) r.1 off.1 (omega arith))

measure-Route_at :
    (k : ℕ) (m : Memory) (base i : ℕ) (js : List ℕ) (goal start n a total : ℕ)
    → Route m base i js goal
    → All (λ j. goal ≢ word base j) js
    → length js < k
    → a ≡ word base i
    → n + length js ≡ total
    → measure k m goal start a n
      ≡ done (record { start_idx = start; end_idx = word base (last i js); length = total })
measure-Route_at k m base i js goal start n a total r off fuel ea et =
    rw (ea, ← et) (measure-Route k m base i js goal start n r off fuel)

-- What is known of subpath `i` when it has been measured.
pub record IsInfo (Shape : List ℕ → Type 0) (at per : ℕ) (next : ℕ → ℕ) (m : Memory) (i : ℕ)
    (info : SubpathInfo) : Type 0 where
  pub closed : Closed Shape at per next m i
  pub start : info.start_idx ≡ chunk_at at per i
  pub end : info.end_idx ≡ word (chunk_at at per i) (last 0 closed.steps)
  pub count : info.length ≡ suc (length closed.steps)

-- The infos of the subpaths from `i` on.
abbrev pub InfosFrom : (List ℕ → Type 0) → ℕ → ℕ → (ℕ → ℕ) → Memory → ℕ → List SubpathInfo → Type 0
InfosFrom Shape at per next m i [] = Unit
InfosFrom Shape at per next m i (info ∷ infos) =
    IsInfo Shape at per next m i info × InfosFrom Shape at per next m (i + 1) infos

-- No word of a chunk but its first is the first word of a chunk.
start-ne-word :
    (at per i t j : ℕ)
    → 0 ≢ j
    → j < words_per_line * per
    → chunk_at at per t ≢ word (chunk_at at per i) j
start-ne-word at per i t j h lt e = elim (order_cases t i) [
  | inl before ↦ absurd (omega (arith, chunk_room t i per before))
  | inr rest ↦ elim (order_cases i t) [
    | inl after ↦ absurd (omega (arith, chunk_room i t per after))
    | inr same ↦ let here : t ≡ i = omega arith in omega (arith, ap (λ (z : ℕ). z * per) here)
  ]
]

module _ (Shape : List ℕ → Type 0) (at per subpaths fuel : ℕ) (m : Memory)
    (room : chunk_at at per subpaths ≤ two32) (pos : 0 < per)
    (enough : words_per_line * per ≤ fuel) where
  -- One walk.
  measure-Closed :
      (i : ℕ)
      → i < subpaths
      → (c : Closed Shape at per (ring subpaths) m i)
      → measure fuel m (chunk_at at per (ring subpaths i)) (chunk_at at per i) (chunk_at at per i) 1
        ≡ done (record {
          start_idx = chunk_at at per i;
          end_idx = word (chunk_at at per i) (last 0 c.steps);
          length = suc (length c.steps);
        })
  measure-Closed i h c =
      let base = chunk_at at per i in
      let goal = chunk_at at per (ring subpaths i) in
      let from : word base 0 ≡ base = omega arith in
      let off =
        All_map2 (λ j. 0 ≢ j) (λ j. j < words_per_line * per) (λ j. goal ≢ word base j)
          (λ j. start-ne-word at per i (ring subpaths i) j) c.steps c.distinct.0 c.bound.1 in
      let few = length_le_of_Distinct (words_per_line * per) (0 ∷ c.steps) c.distinct c.bound in
      measure-Route_at fuel m base 0 c.steps goal base 1 base (suc (length c.steps)) c.route off
        (omega arith) (sym from) (omega arith)

  -- All walks, from subpath `i` on. `slice` is what the code divides the data set into.
  collect_from-InfosFrom :
      (slice k i : ℕ)
      → slice ≡ line_size * per
      → i + k ≡ subpaths
      → ((j : ℕ) → j < subpaths → Closed Shape at per (ring subpaths) m j)
      → (infos : List SubpathInfo) × (collect_from fuel m at slice subpaths k i ≡ done infos)
        × (length infos ≡ k)
        × InfosFrom Shape at per (ring subpaths) m i infos
  unfolding collect_from
  collect_from-InfosFrom slice zero i es e closed = ([], refl, refl, tt)
  collect_from-InfosFrom slice (suc k) i es e closed =
      let c = closed i (omega arith) in
      let (infos, runs, count, known) =
        collect_from-InfosFrom slice k (i + 1) es (omega arith) closed in
      let start : u32 (at + i * slice) ≡ chunk_at at per i =
        rw es (omega (arith, chunk_room i subpaths per (omega arith))) in
      let goal : u32 (at + (i + 1) % subpaths * slice) ≡ chunk_at at per (ring subpaths i) =
        rw es (omega (arith, chunk_room ((i + 1) % subpaths) subpaths per (omega arith))) in
      let info : SubpathInfo = record {
        start_idx = chunk_at at per i;
        end_idx = word (chunk_at at per i) (last 0 c.steps);
        length = suc (length c.steps);
      } in
      (
        info ∷ infos,
        rw (start, goal, measure-Closed i (omega arith) c, runs),
        ap suc count,
        (record { closed = c; start = refl; end = refl; count = refl }, known),
      )

  -- On a ring of chunks that the data set divides into evenly, the walks end, and the infos are
  -- those of the chunks in order.
  pub collect_lem :
      (dataset : ℕ)
      → dataset ≡ subpaths * (line_size * per)
      → 0 < subpaths
      → ((j : ℕ) → j < subpaths → Closed Shape at per (ring subpaths) m j)
      → (infos : List SubpathInfo) × (collect_pointer_chasing_subpath_info fuel m at dataset
            subpaths
          ≡ done infos)
        × (length infos ≡ subpaths)
        × InfosFrom Shape at per (ring subpaths) m 0 infos
  unfolding collect_pointer_chasing_subpath_info
  collect_lem dataset e some_subpath closed =
      let slice : dataset / subpaths ≡ line_size * per =
        rw e (mul_div subpaths (line_size * per) some_subpath) in
      let (infos, runs, count, known) =
        collect_from-InfosFrom (dataset / subpaths) subpaths 0 slice (omega arith) closed in
      let one : (subpaths == 0) ≡ false = ground arith in
      (infos, rw (one, runs) (some_infos infos (omega arith)), count, known)
    where
      some_infos : (infos : List SubpathInfo) → 0 < length infos → non_empty infos ≡ done infos
      some_infos [] h = absurd (omega arith)
      some_infos (info ∷ infos) h = refl
