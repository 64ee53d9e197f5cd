-- ===== src/Distribution/Grow/Round.antt =====
-- One round of the loops that grow a path (src/Distribution.cc): the end is marked, and the first
-- free of some words is looked for and linked to.
use mathlib.Core.List.{Memᴰ}
use cachetest.Prelude.{
  ℕ, ◌+◌, ◌≤◌, ◌<◌, ◌≡◌, ◌≢◌, sym, ap, subst, ◌∙◌, ◌⊎◌, inl, inr, arith, List, [], ◌∷◌, ◌++◌, some,
  none, two32, Mem-cases,
}
use cachetest.Memory.{Memory, load32, store32}
use cachetest.Memory.Route.{word}
use cachetest.Distribution.Probe.{probe, Found, probe-cases}
use cachetest.Distribution.Grow.{Grown, Grown-mark, Grown-extend}

-- Slot `o` of the dataline looked at is word `f o` of the chunk.
module _ (base size : ℕ) (m0 m : Memory) (prev : ℕ) (js : List ℕ) (r : ℕ) (element f : ℕ → ℕ)
    (room : word base size ≤ two32) (at : (o : ℕ) → o < r → element o ≡ word base (f o))
    (inside : (o : ℕ) → o < r → f o < size) (g : Grown base size m0 m prev js) where
  abbrev marked : Memory
  marked = store32 m prev 1

  -- The path with a word more.
  pub record Longer (e : ℕ) : Type 0 where
    pub slot : ℕ
    pub slot_lt : slot < r
    pub here : e ≡ element slot
    pub path : Grown base size m0 (store32 marked prev e) e (js ++ f slot ∷ [])

  -- The path stays, and all the slots are words on it.
  pub record Stuck : Type 0 where
    pub path : Grown base size m0 marked prev js
    pub on : (o : ℕ) → o < r → Memᴰ (f o) (0 ∷ js)

  Found-Longer : (e : ℕ) → Found marked element 0 r e → Longer e
  Found-Longer e found =
      let h : found.slot < r = omega (arith, found.hi) in
      let same : e ≡ word base (f found.slot) = found.here ∙ at found.slot h in
      record {
        slot = found.slot;
        slot_lt = h;
        here = found.here;
        path =
            subst (λ a. Grown base size m0 (store32 marked prev a) a (js ++ f found.slot ∷ []))
              (sym same)
              (Grown-extend base size m0 room m prev (f found.slot) js g (inside found.slot h)
                (subst (λ a. load32 marked a ≡ 0) same found.free));
      }

  full-Stuck :
      ((j : ℕ) → j < size → load32 m0 (word base j) ≡ 0)
      → ((o : ℕ) → 0 ≤ o → o < 0 + r → load32 marked (element o) ≢ 0)
      → Stuck
  full-Stuck zeros full =
      let path = Grown-mark base size m0 room m prev 1 js g in
      record {
        path = path;
        on = λ o h. elim (Mem-cases (f o) (0 ∷ js)) [
          | inl on ↦ on
          | inr off ↦ absurd (
              full o (omega arith) (omega arith)
                (ap (load32 marked) (at o h) ∙ path.unused (f o) off ∙ zeros (f o) (inside o h)))
        ];
      }

  -- In a chunk of zeros, the round makes the path longer, or all the slots are words on it.
  pub round-cases :
      ((j : ℕ) → j < size → load32 m0 (word base j) ≡ 0)
      → ((e : ℕ) × (probe r marked element 0 ≡ some e) × Longer e)
        ⊎ ((probe r marked element 0 ≡ none) × Stuck)
  round-cases zeros = elim (probe-cases r marked element 0) [
    | inl (e, some_found, found) ↦ inl (e, some_found, Found-Longer e found)
    | inr (none_found, full) ↦ inr (none_found, full-Stuck zeros full)
  ]
