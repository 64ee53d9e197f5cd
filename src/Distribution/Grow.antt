-- ===== src/Distribution/Grow.antt =====
-- A path that grows word by word, as the loops of `UniformDistribution`, `WeightedUniform` and
-- `SubpathDistribution::zipfSubpath` (src/Distribution.cc) grow it: the end is marked, a word that
-- is zero is found, and the end is linked to it.
pub mod Round
pub mod Free
use mathlib.Core.List.{map-append}
use cachetest.Prelude.{
  All-last, ◌⊎◌, All-last, ℕ, ◌≤◌, ◌<◌, ◌≡◌, ◌≢◌, sym, ap, subst, ◌∙◌, inl, arith, List, [], ◌∷◌,
  ◌++◌, map, All, All_mono, All_map2, All-concat, Distinct, Distinct-concat, last, last-concat,
  two32,
}
use cachetest.Memory.{Memory, load32, store32}
use cachetest.Memory.Words.{load32-store32, load32-store32-Apart, store32-other}
use cachetest.Memory.Chain.{Chain, sources, Chain-store32}
use cachetest.Memory.Route.{
  word, word-Apart, sources-append, last-Apart, sources-ne-last, Route-close,
}

All_before {ℓ} : (P : ℕ → Type ℓ) (xs : List ℕ) (y : ℕ) → All P (xs ++ y ∷ []) → All P xs
All_before P [] y h = tt
All_before P (x ∷ xs) y h = (h.0, All_before P xs y h.1)

-- What holds of all words but the last, and of the last, holds of all.
All_of_sources {ℓ} :
    (P : ℕ → Type ℓ) (i : ℕ) (js : List ℕ) → All P (sources i js) → P (last i js) → All P (i ∷ js)
All_of_sources P i [] h p = (p, tt)
All_of_sources P i (j ∷ js) h p = (h.0, All_of_sources P j js h.1 p)

-- From word 0 of the chunk at `base`, which has `size` words, the path goes through the words `js`
-- to `prev`. No word that it leaves is zero; other words have not changed.
pub record Grown (base size : ℕ) (m0 m : Memory) (prev : ℕ) (js : List ℕ) : Type 0 where
  pub chain : Chain m (word base 0) (map (word base) js)
  pub end : prev ≡ word base (last 0 js)
  pub distinct : Distinct (0 ∷ js)
  pub bound : All (λ j. j < size) (0 ∷ js)
  pub used : All (λ j. load32 m (word base j) ≢ 0) (sources 0 js)
  pub unused :
      (j : ℕ) → All (λ i. j ≢ i) (0 ∷ js) → load32 m (word base j) ≡ load32 m0 (word base j)
  pub outside : (x : ℕ) → (x < base) ⊎ (word base size ≤ x) → m x ≡ m0 x

module _ (base size : ℕ) (m0 : Memory) (room : word base size ≤ two32) where
  -- A write to the end of the path.
  at_end :
      (m : Memory) (js : List ℕ) (v : ℕ)
      → Distinct (0 ∷ js)
      → All (λ j. load32 m (word base j) ≢ 0) (sources 0 js)
      → All (λ j. load32 (store32 m (word base (last 0 js)) v) (word base j) ≢ 0) (sources 0 js)
  at_end m js v distinct used =
      All_map2 (λ j. last 0 js ≢ j) (λ j. load32 m (word base j) ≢ 0) _
        (λ j ne h e. h (
          sym (
            load32-store32-Apart m (word base (last 0 js)) v (word base j)
              (word-Apart base (last 0 js) j ne))
          ∙ e))
        (sources 0 js) (sources-ne-last 0 js distinct) used

  at_end-outside :
      (m : Memory) (js : List ℕ) (v x : ℕ)
      → All (λ j. j < size) (0 ∷ js)
      → (x < base) ⊎ (word base size ≤ x)
      → store32 m (word base (last 0 js)) v x ≡ m x
  at_end-outside m js v x bound h =
      let lt = All-last (λ j. j < size) 0 js bound in
      store32-other m (word base (last 0 js)) v x (ground arith)

  at_end-unused :
      (m : Memory) (js : List ℕ) (v j : ℕ)
      → All (λ i. j ≢ i) (0 ∷ js)
      → load32 (store32 m (word base (last 0 js)) v) (word base j) ≡ load32 m (word base j)
  at_end-unused m js v j h =
      load32-store32-Apart m (word base (last 0 js)) v (word base j)
        (word-Apart base (last 0 js) j (λ e. All-last (λ i. j ≢ i) 0 js h (sym e)))

  pub Grown-mark :
      (m : Memory) (prev v : ℕ) (js : List ℕ)
      → Grown base size m0 m prev js
      → Grown base size m0 (store32 m prev v) prev js
  Grown-mark m prev v js g = record {
    chain = rw g.end (
        Chain-store32 m _ v (word base 0) (map (word base) js) (last-Apart base 0 js g.distinct)
          g.chain);
    end = g.end;
    distinct = g.distinct;
    bound = g.bound;
    used = rw g.end (at_end m js v g.distinct g.used);
    unused = λ j h. rw g.end (at_end-unused m js v j h ∙ g.unused j h);
    outside = λ x h. rw g.end (at_end-outside m js v x g.bound h ∙ g.outside x h);
  }

  -- A word that is zero once the end is marked is not on the path.
  fresh :
      (m : Memory) (prev k : ℕ) (js : List ℕ)
      → Grown base size m0 m prev js
      → load32 (store32 m prev 1) (word base k) ≡ 0
      → All (λ j. k ≢ j) (0 ∷ js)
  fresh m prev k js g free =
      let m1 = store32 m prev 1 in
      let marked : load32 m1 (word base (last 0 js)) ≢ 0 =
        λ e. omega (arith, load32-store32 m prev 1 (omega arith), ap (load32 m1) g.end) in
      All_mono {P = λ j. load32 m1 (word base j) ≢ 0}
        (λ j h e. h (subst (λ i. load32 m1 (word base i) ≡ 0) e free)) (0 ∷ js)
        (All_of_sources (λ j. load32 m1 (word base j) ≢ 0) 0 js
          (rw g.end (at_end m js 1 g.distinct g.used)) marked)

  -- The marked end is linked to a word that is not on the path.
  pub Grown-link :
      (m : Memory) (prev k : ℕ) (js : List ℕ)
      → Grown base size m0 m prev js
      → k < size
      → All (λ j. k ≢ j) (0 ∷ js)
      → Grown base size m0 (store32 m prev (word base k)) (word base k) (js ++ k ∷ [])
  Grown-link m prev k js g h new =
      let small : word base k < two32 = omega arith in
      record {
        chain =
            rw (map-append, g.end) (Route-close m base 0 js (word base k) small g.distinct g.chain);
        end = ap (word base) (sym (last-concat 0 js k));
        distinct = Distinct-concat (0 ∷ js) k g.distinct new;
        bound = All-concat (λ j. j < size) (0 ∷ js) k g.bound h;
        used = rw (sources-append 0 js k) (
            All_of_sources (λ j. load32 (store32 m prev (word base k)) (word base j) ≢ 0) 0 js
              (rw g.end (at_end m js (word base k) g.distinct g.used))
              (λ e. new.0 (
                omega (
                  arith,
                  load32-store32 m prev (word base k) small,
                  ap (load32 (store32 m prev (word base k))) g.end,
                ))));
        unused = λ j no. rw g.end (
            at_end-unused m js (word base k) j (All_before (λ i. j ≢ i) (0 ∷ js) k no)
            ∙ g.unused j (All_before (λ i. j ≢ i) (0 ∷ js) k no));
        outside =
            λ x lt. rw g.end (at_end-outside m js (word base k) x g.bound lt ∙ g.outside x lt);
      }

  -- The end is marked, and linked to a word of the chunk that is then zero.
  pub Grown-extend :
      (m : Memory) (prev k : ℕ) (js : List ℕ)
      → Grown base size m0 m prev js
      → k < size
      → load32 (store32 m prev 1) (word base k) ≡ 0
      → Grown base size m0
          (store32 (store32 m prev 1) prev (word base k))
          (word base k)
          (js ++ k ∷ [])
  Grown-extend m prev k js g h free =
      Grown-link (store32 m prev 1) prev k js (Grown-mark m prev 1 js g) h
        (fresh m prev k js g free)
