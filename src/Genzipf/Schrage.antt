-- ===== src/Genzipf/Schrage.antt =====
-- `rand_val` (src/genzipf.cc) computes a product modulo 2^31 - 1 in parts.
use cachetest.Prelude.{
  ℕ, zero, suc, ◌*◌, ◌/◌, ◌%◌, ◌<◌, ◌≡◌, refl, arith, order_cases, inl, inr, true, false, ltb, ◌==◌,
  done, out_of_fuel,
}
use cachetest.Genzipf.{multiplier, modulus, quotient, remainder, rand_step, rand_val, draw}

-- From a number between 0 and the modulus the step goes to its product with 16807 modulo 2^31 - 1,
-- which lies there again.
pub rand_step_lem :
    (x : ℕ)
    → 0 < x
    → x < modulus
    → (rand_step x ≡ multiplier * x % modulus) × (0 < rand_step x) × (rand_step x < modulus)
unfolding rand_step
rand_step_lem x pos h =
    elim (order_cases (remainder * (x / quotient)) (multiplier * (x % quotient))) [
      | inl less ↦
          let test : ltb (remainder * (x / quotient)) (multiplier * (x % quotient)) ≡ true =
            ground arith in
          rw test (omega arith, omega arith, omega arith)
      | inr more ↦
          let test : ltb (remainder * (x / quotient)) (multiplier * (x % quotient)) ≡ false =
            ground arith in
          rw test (omega arith, omega arith, omega arith)
    ]

endless : (fuel : ℕ) → draw fuel modulus ≡ out_of_fuel
unfolding draw rand_val rand_step
endless zero = refl
endless (suc fuel) = endless fuel

-- From a state between 0 and the modulus the loop ends in its first round, with the next state of
-- the generator, which lies there again. From the modulus itself, which is the greatest `int` and so
-- a possible seed, it never ends.
pub draw_lem :
    (fuel x : ℕ)
    → (0 < x
        → x < modulus
        → (draw (suc fuel) x ≡ done (multiplier * x % modulus))
          × (0 < multiplier * x % modulus)
          × (multiplier * x % modulus < modulus))
      × (draw fuel modulus ≡ out_of_fuel)
unfolding draw rand_val
draw_lem fuel x = (first_round, endless fuel)
  where
    first_round :
        0 < x
        → x < modulus
        → (draw (suc fuel) x ≡ done (multiplier * x % modulus))
          × (0 < multiplier * x % modulus)
          × (multiplier * x % modulus < modulus)
    first_round pos h =
        let (value, low, high) = rand_step_lem x pos h in
        let not_zero : (rand_step x == 0) ≡ false = ground arith in
        let not_one : (rand_step x == modulus) ≡ false = ground arith in
        (rw (not_zero, not_one, value) refl, omega (arith, value), omega (arith, value))
