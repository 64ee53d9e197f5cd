-- ===== src/Distribution/Grow/Free.antt =====
-- A free word is linked to where the end of the path is not marked (`WeightedUniform`,
-- src/Distribution.cc).
use mathlib.Core.List.{Memᴰ}
use cachetest.Prelude.{
  ℕ, ◌≤◌, ◌<◌, ◌≡◌, ◌≢◌, ap, sym, subst, ◌∙◌, ◌⊎◌, refl, inl, inr, List, [], ◌∷◌, ◌++◌, All,
  All_mono, last, two32, Mem-cases,
}
use cachetest.Memory.{Memory, load32, store32}
use cachetest.Memory.Chain.{sources}
use cachetest.Memory.Route.{word}
use cachetest.Distribution.Grow.{Grown, Grown-mark, Grown-link}

-- A word of the path that is none of those before the end is the end.
on_path-last :
    (k i : ℕ) (js : List ℕ) → Memᴰ k (i ∷ js) → All (λ j. k ≢ j) (sources i js) → k ≡ last i js
on_path-last k i [] (Memᴰ.head e) h = e
on_path-last k i [] (Memᴰ.tail m) h = elim m [ ]
on_path-last k i (j ∷ js) (Memᴰ.head e) h = absurd (h.0 e)
on_path-last k i (j ∷ js) (Memᴰ.tail m) h = on_path-last k j js m h.1

module _ (base size : ℕ) (m0 : Memory) (room : word base size ≤ two32) where
  -- A free word is linked to, where the end has not been marked: it may be the end itself.
  pub Grown-free :
      (m : Memory) (prev k : ℕ) (js : List ℕ)
      → Grown base size m0 m prev js
      → k < size
      → load32 m (word base k) ≡ 0
      → (js' : List ℕ) × (((js' ≡ js) × (k ≡ last 0 js)) ⊎ (js' ≡ js ++ k ∷ []))
        × Grown base size m0 (store32 m prev (word base k)) (word base k) js'
  Grown-free m prev k js g h free = elim (Mem-cases k (0 ∷ js)) [
    | inr off ↦ (js ++ k ∷ [], inr refl, Grown-link base size m0 room m prev k js g h off)
    | inl on ↦
        let others =
          All_mono {P = λ j. load32 m (word base j) ≢ 0} {Q = λ j. k ≢ j}
            (λ j used e. used (subst (λ i. load32 m (word base i) ≡ 0) e free)) (sources 0 js)
            g.used in
        let same : prev ≡ word base k =
          g.end ∙ ap (word base) (sym (on_path-last k 0 js on others)) in
        (
          js,
          inl (refl, on_path-last k 0 js on others),
          subst (λ p. Grown base size m0 (store32 m prev (word base k)) p js) same
              (Grown-mark base size m0 room m prev (word base k) js g),
        )
  ]
