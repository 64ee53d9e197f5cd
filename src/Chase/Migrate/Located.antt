-- ===== src/Chase/Migrate/Located.antt =====
-- The fibre of `migratingLoop` (src/cachetest.cc) is always in the chunk of the subpath whose cluster
-- it runs on.
use cachetest.Prelude.{
  ℕ, zero, suc, ◌+◌, ◌*◌, ◌<◌, ◌≤◌, ◌≡◌, ◌≢◌, order_cases, inl, inr, refl, sym, ap, ◌∙◌, subst,
  arith, true, false, List, [], ◌∷◌, length, length_le_of_Distinct, All, leb, ==_of_ne,
  if◌then◌else◌, two32, u64, minus_one,
}
use cachetest.Memory.{Memory, load32}
use cachetest.Memory.Route.{word, Route}
use cachetest.Distribution.Subpath.Distribute.Layer.{words_per_line}
use cachetest.Distribution.Subpath.Distribute.Ring.{chunk_at, chunk_room, ring, Closed}
use cachetest.Chase.{SubpathInfo}
use cachetest.Chase.Measure.{InfosFrom}
use cachetest.Chase.Migrate.{
  Migrant, length_of, migrant_start, migrate, migrant_step, migrating_loop,
}

le_mul : (a b : ℕ) → 0 < b → a ≤ a * b
le_mul a b h = grind arith

ring_inside : (i n : ℕ) → i + 1 < n → ring n i ≡ i + 1
ring_inside i n h = grind arith

ring_last : (i n : ℕ) → i < n → n ≤ i + 1 → ring n i ≡ 0
ring_last i n h k = let same : i + 1 ≡ n = omega arith in rw same (grind arith)

-- The info at index `j`.
InfosFrom-length_of :
    (Shape : List ℕ → Type 0) (at per : ℕ) (next : ℕ → ℕ) (m : Memory) (i : ℕ)
    (infos : List SubpathInfo) (j : ℕ)
    → InfosFrom Shape at per next m i infos
    → j < length infos
    → (c : Closed Shape at per next m (i + j)) × (length_of infos j ≡ suc (length c.steps))
InfosFrom-length_of Shape at per next m i [] j known h = absurd (omega arith)
InfosFrom-length_of Shape at per next m i (info ∷ infos) zero known h =
    let same : i ≡ i + 0 = omega arith in
    subst (λ n. (c : Closed Shape at per next m n) × (info.length ≡ suc (length c.steps))) same
      (known.0.closed, known.0.count)
InfosFrom-length_of Shape at per next m i (info ∷ infos) (suc j) known h =
    let same : i + 1 + j ≡ i + suc j = omega arith in
    subst (λ n. (c : Closed Shape at per next m n) × (length_of infos j ≡ suc (length c.steps)))
      same (InfosFrom-length_of Shape at per next m (i + 1) infos j known.1 (omega arith))

module _ (Shape : List ℕ → Type 0) (at per subpaths : ℕ) (m : Memory) (infos : List SubpathInfo)
    (room : chunk_at at per subpaths ≤ two32) (count : length infos ≡ subpaths)
    (known : InfosFrom Shape at per (ring subpaths) m 0 infos) where
  path_of :
      (j : ℕ)
      → j < subpaths
      → (c : Closed Shape at per (ring subpaths) m j) × (length_of infos j ≡ suc (length c.steps))
  path_of j h =
      let same : 0 + j ≡ j = omega arith in
      subst
        (λ n.
          (c : Closed Shape at per (ring subpaths) m n) × (length_of infos j
            ≡ suc (length c.steps)))
        same (InfosFrom-length_of Shape at per (ring subpaths) m 0 infos j known (omega arith))

  -- The index is that of a word of chunk `subpathIdx`, from where the path goes on through the words
  -- `rest` to the next chunk; the steps that are left are the words that are left.
  pub record Located (s : Migrant) : Type 0 where
    pub subpath_lt : s.subpath_idx < subpaths
    pub here : ℕ
    pub rest : List ℕ
    pub index : s.index ≡ word (chunk_at at per s.subpath_idx) here
    pub inside : All (λ k. k < words_per_line * per) (here ∷ rest)
    pub route :
        Route m
          (chunk_at at per s.subpath_idx)
          here
          rest
          (chunk_at at per (ring subpaths s.subpath_idx))
    pub steps : s.num_subpath_steps ≡ s.cur_step + suc (length rest)
    pub few : s.num_subpath_steps ≤ words_per_line * per

  -- At the first word of a subpath.
  start-Located :
      (s : Migrant)
      → s.subpath_idx < subpaths
      → s.index ≡ chunk_at at per s.subpath_idx
      → s.cur_step ≡ 0
      → s.num_subpath_steps ≡ length_of infos s.subpath_idx
      → Located s
  start-Located s h e zero_steps e' =
      let (c, known_length) = path_of s.subpath_idx h in
      record {
        subpath_lt = h;
        here = 0;
        rest = c.steps;
        index = e ∙ omega arith;
        inside = c.bound;
        route = c.route;
        steps = omega (arith, e', known_length, zero_steps);
        few = omega (
          arith,
          e',
          known_length,
          length_le_of_Distinct (words_per_line * per) (0 ∷ c.steps) c.distinct c.bound,
        );
      }

  few_words : (s : Migrant) → Located s → words_per_line * per ≤ two32
  few_words s t = omega (arith, chunk_room s.subpath_idx subpaths per t.subpath_lt)

  few_subpaths : (s : Migrant) → Located s → subpaths ≤ two32
  few_subpaths s t = omega (arith, le_mul subpaths per (omega (arith, t.inside.0)))

  -- The step to the next word of the path.
  step-same :
      (s : Migrant)
      → s.cur_step + 1 < s.num_subpath_steps
      → s.num_subpath_steps ≤ two32
      → migrant_step infos subpaths m s ≡ record s {
        index = load32 m s.index;
        accesscount = u64 (s.accesscount + 1);
        cur_step = s.cur_step + 1;
      }
  unfolding migrant_step
  step-same s h small = rw (wrap, test)
    where
      wrap : u64 (s.cur_step + 1) ≡ s.cur_step + 1
      wrap = omega arith

      test : leb s.num_subpath_steps (s.cur_step + 1) ≡ false
      test = ground arith

  -- The step to the next chunk.
  step-next :
      (s : Migrant)
      → s.num_subpath_steps ≡ s.cur_step + 1
      → s.num_subpath_steps ≤ two32
      → s.subpath_idx < subpaths
      → subpaths ≤ two32
      → migrant_step infos subpaths m s ≡ record {
        index = load32 m s.index;
        accesscount = u64 (s.accesscount + 1);
        subpath_idx = ring subpaths s.subpath_idx;
        num_subpath_steps = length_of infos (ring subpaths s.subpath_idx);
        cur_step = 0;
      }
  unfolding migrant_step migrate
  step-next s e small h few = rw (wrap, test, to)
    where
      wrap : u64 (s.cur_step + 1) ≡ s.cur_step + 1
      wrap = omega arith

      test : leb s.num_subpath_steps (s.cur_step + 1) ≡ true
      test = ground arith

      to :
          (if leb subpaths (u64 (s.subpath_idx + 1)) then 0 else u64 (s.subpath_idx + 1))
          ≡ ring subpaths s.subpath_idx
      to = elim (order_cases (s.subpath_idx + 1) subpaths) [
        | inl inside ↦ rw (ring_inside s.subpath_idx subpaths inside) (ground arith)
        | inr past ↦ rw (ring_last s.subpath_idx subpaths h past) (ground arith)
      ]

  -- The step, by the words that are left.
  step_rest :
      (s : Migrant) (t : Located s) (rest : List ℕ)
      → t.rest ≡ rest
      → All (λ k. k < words_per_line * per) (t.here ∷ rest)
      → Route m
          (chunk_at at per s.subpath_idx)
          t.here
          rest
          (chunk_at at per (ring subpaths s.subpath_idx))
      → s.num_subpath_steps ≡ s.cur_step + suc (length rest)
      → Located (migrant_step infos subpaths m s)
  step_rest s t [] e inside route steps =
      let to = ring subpaths s.subpath_idx in
      let lt : to < subpaths = omega (arith, t.subpath_lt) in
      let step =
        step-next s (omega arith) (omega (arith, t.few, few_words s t)) t.subpath_lt
          (few_subpaths s t) in
      subst Located (sym step) (start-Located _ lt (ap (load32 m) t.index ∙ route.0) refl refl)
  step_rest s t (k ∷ rest) e inside route steps =
      let step = step-same s (omega arith) (omega (arith, t.few, few_words s t)) in
      subst Located (sym step) (record {
        subpath_lt = t.subpath_lt;
        here = k;
        rest = rest;
        index = ap (load32 m) t.index ∙ route.0;
        inside = inside.1;
        route = route.1;
        steps = omega arith;
        few = t.few;
      })

  step-Located : (s : Migrant) → Located s → Located (migrant_step infos subpaths m s)
  step-Located s t = step_rest s t t.rest refl t.inside t.route t.steps

  loop_step :
      (k : ℕ) (s : Migrant)
      → s.index ≢ minus_one
      → migrating_loop (suc k) infos subpaths m s
        ≡ migrating_loop k infos subpaths m (migrant_step infos subpaths m s)
  unfolding migrating_loop
  loop_step k s h = rw (==_of_ne s.index minus_one h)

  index_ne : (s : Migrant) → Located s → s.index ≢ minus_one
  index_ne s t e =
      omega (arith, t.index, t.inside.0, chunk_room s.subpath_idx subpaths per t.subpath_lt)

  loop-Located : (k : ℕ) (s : Migrant) → Located s → Located (migrating_loop k infos subpaths m s)
  unfolding migrating_loop
  loop-Located zero s t = t
  loop-Located (suc k) s t =
      subst Located (sym (loop_step k s (index_ne s t)))
        (loop-Located k (migrant_step infos subpaths m s) (step-Located s t))

  -- On a ring of subpaths that has not been split: a fibre that starts at the first word of a subpath
  -- is, after any number of rounds, at a word of the chunk whose cluster it is on, with as many steps
  -- left there as there are words left on the path through that chunk.
  pub migrating_loop-Located :
      (k j : ℕ)
      → j < subpaths
      → Located (migrating_loop k infos subpaths m (migrant_start infos j (chunk_at at per j) 0))
  unfolding migrant_start
  migrating_loop-Located k j h =
      loop-Located k (migrant_start infos j (chunk_at at per j) 0)
        (start-Located (migrant_start infos j (chunk_at at per j) 0) h refl refl refl)
