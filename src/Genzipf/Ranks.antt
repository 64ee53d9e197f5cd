-- ===== src/Genzipf/Ranks.antt =====
-- The values of `zipf` (src/genzipf.cc).
use cachetest.Prelude.{
  ℕ, zero, suc, ◌+◌, ◌*◌, ◌%◌, ◌≤◌, ◌<◌, ◌≡◌, refl, subst, inl, inr, arith, Bool, Bool-cases, true,
  ◌&&◌, leb, ltb, ◌==◌, false, some, done, out_of_fuel,
}
use cachetest.Genzipf.{multiplier, modulus, search_rank, zipf, init_zipf, rand_val}
use cachetest.Genzipf.Schrage.{draw_lem}

-- The states of the generator other than the modulus.
abbrev pub IsState : ℕ → Type 0
IsState x = (0 < x) × (x < modulus)

search_rank-lt :
    (reaches : (n i z : ℕ) → Bool) (n z left i : ℕ)
    → reaches n (i + left) z ≡ true
    → (value : ℕ) × (search_rank reaches n z (suc left) i ≡ some value)
      × (i ≤ value)
      × (value ≤ i + left)
unfolding search_rank
search_rank-lt reaches n z zero i all =
    let same : i + 0 ≡ i = omega arith in
    let here : reaches n i z ≡ true = subst (λ j. reaches n j z ≡ true) same all in
    (i, rw here refl, omega arith, omega arith)
search_rank-lt reaches n z (suc left) i all = elim (Bool-cases (reaches n i z)) [
  | inl here ↦ (i, rw here refl, omega arith, omega arith)
  | inr later ↦
      let same : i + suc left ≡ i + 1 + left = omega arith in
      let (value, found, low, high) =
        search_rank-lt reaches n z left (i + 1) (subst (λ j. reaches n j z ≡ true) same all) in
      (value, rw (search_rank, later, found) refl, omega (arith, low), omega (arith, high))
]

pub zipf_lem :
    (reaches : (n i z : ℕ) → Bool) (fuel n x : ℕ)
    → 0 < n
    → ((z : ℕ) → IsState z → reaches n n z ≡ true)
    → IsState x
    → (value : ℕ) × (x' : ℕ) × (zipf reaches (suc fuel) n x ≡ done (value, x'))
      × (1 ≤ value)
      × (value ≤ n)
      × IsState x'
      × (zipf reaches fuel n modulus ≡ out_of_fuel)
unfolding zipf
zipf_lem reaches fuel zero x some_value all state = absurd (omega arith)
zipf_lem reaches fuel (suc n) x some_value all (pos, small) =
    let (runs, low, high) = (draw_lem fuel x).0 pos small in
    let same : suc n ≡ 1 + n = omega arith in
    let (value, found, least, most) =
      search_rank-lt reaches (suc n) (multiplier * x % modulus) n 1 (
        subst (λ j. reaches (suc n) j (multiplier * x % modulus) ≡ true) same
          (all _ (low, high))) in
    let test : (leb 1 value && leb value (suc n)) ≡ true = ground (arith, least, most) in
    (
      value,
      multiplier * x % modulus,
      rw (zipf, runs, found, test) refl,
      least,
      omega (arith, most),
      (low, high),
      rw (zipf, (draw_lem fuel x).1) refl,
    )

-- A positive `int` is accepted as a seed.
pub init_zipf-pos : (seed x : ℕ) → 0 < seed → seed < 0x8000_0000 → init_zipf seed x ≡ some seed
unfolding init_zipf rand_val
init_zipf-pos seed x pos small =
    let not_zero : (seed == 0) ≡ false = ground (arith, pos) in
    let positive : ltb 0 seed ≡ true = ground (arith, pos) in
    let fits : ltb seed 0x8000_0000 ≡ true = ground (arith, small) in
    let not_negative : leb 0x8000_0000 seed ≡ false = ground (arith, small) in
    rw (init_zipf, not_zero, not_negative, positive, fits) refl
