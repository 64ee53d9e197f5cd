-- ===== src/Distribution/Probe.antt =====
-- The inner loop of `UniformDistribution`, `WeightedUniform` and `SubpathDistribution::zipfSubpath`
-- (src/Distribution.cc): the slots of a dataline are tried in order, until one holds zero.
use cachetest.Prelude.{
  ℕ, zero, suc, ◌+◌, ◌==◌, if◌then◌else◌, Option, none, some, ◌≡◌, ◌≢◌, ◌≤◌, ◌<◌, inl, inr, refl,
  ◌∙◌, ◌⊎◌, arith, eq_cases, ==_of_ne,
}
use cachetest.Memory.{Memory, load32}

-- `element o` is the offset of slot `o`; `r` slots are left from slot `o` on. `none` sets `done`.
unfoldable pub probe : ℕ → Memory → (ℕ → ℕ) → ℕ → Option ℕ
probe zero m element o = none
probe (suc r) m element o =
    let rest = probe r m element (o + 1) in
    if load32 m (element o) == 0 then some (element o) else rest

probe-free :
    (r : ℕ) (m : Memory) (element : ℕ → ℕ) (o : ℕ)
    → load32 m (element o) ≡ 0
    → probe (suc r) m element o ≡ some (element o)
unfolding probe
probe-free r m element o free = rw free

probe-taken :
    (r : ℕ) (m : Memory) (element : ℕ → ℕ) (o : ℕ)
    → load32 m (element o) ≢ 0
    → probe (suc r) m element o ≡ probe r m element (o + 1)
unfolding probe
probe-taken r m element o taken = rw (==_of_ne (load32 m (element o)) 0 taken)

-- The slot found is the first that holds zero.
pub record Found (m : Memory) (element : ℕ → ℕ) (o r e : ℕ) : Type 0 where
  pub slot : ℕ
  pub lo : o ≤ slot
  pub hi : slot < o + r
  pub here : e ≡ element slot
  pub free : load32 m e ≡ 0
  pub first : (j : ℕ) → o ≤ j → j < slot → load32 m (element j) ≢ 0

pub probe-cases :
    (r : ℕ) (m : Memory) (element : ℕ → ℕ) (o : ℕ)
    → ((e : ℕ) × (probe r m element o ≡ some e) × Found m element o r e)
      ⊎ ((probe r m element o ≡ none) × ((j : ℕ) → o ≤ j → j < o + r → load32 m (element j) ≢ 0))
unfolding probe
probe-cases zero m element o = inr (refl, λ j lo hi. absurd (omega arith))
probe-cases (suc r) m element o = elim (eq_cases (load32 m (element o)) 0) [
  | inl free ↦ inl (
    element o,
    probe-free r m element o free,
    record {
      slot = o;
      lo = omega arith;
      hi = omega arith;
      here = refl;
      free = free;
      first = λ j lo hi. absurd (omega arith);
    },
  )
  | inr taken ↦ elim (probe-cases r m element (o + 1)) [
    | inl (e, found, f) ↦ inl (
      e,
      probe-taken r m element o taken ∙ found,
      record {
        slot = f.slot;
        lo = omega (arith, f.lo);
        hi = omega (arith, f.hi);
        here = f.here;
        free = f.free;
        first = λ j lo hi. elim (eq_cases j o) [
          | inl same ↦ rw same taken
          | inr later ↦ f.first j (omega arith) hi
        ];
      },
    )
    | inr (none_found, all) ↦ inr (
      probe-taken r m element o taken ∙ none_found,
      λ j lo hi. elim (eq_cases j o) [
        | inl same ↦ rw same taken
        | inr later ↦ all j (omega arith) (omega arith)
      ],
    )
  ]
]
