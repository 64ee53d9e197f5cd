-- ===== src/Genzipf.antt =====
-- The Zipfian draws (src/genzipf.cc): `rand_val`, `init_zipf`, and `zipf`, whose floating point is a
-- parameter.
pub mod Schrage
pub mod Ranks
use cachetest.Prelude.{
  ℕ, zero, suc, ◌+◌, ◌-◌, ◌*◌, ◌/◌, ◌%◌, Bool, ◌||◌, ◌&&◌, ltb, leb, ◌==◌, if◌then◌else◌, Option,
  some, none, Outcome, done, aborted, out_of_fuel, ◌>>=◌, ◌>>◌, assert,
}

abbrev pub multiplier : ℕ
multiplier = 16807

abbrev pub modulus : ℕ
modulus = 2147483647

-- `modulus / multiplier` and `modulus % multiplier`.
abbrev pub quotient : ℕ
quotient = 127773

abbrev pub remainder : ℕ
remainder = 2836

-- The step of `rand_val`, on the static variable `x`. `x_new` is a difference of `long`s, which may
-- be negative.
unfoldable pub rand_step : ℕ → ℕ
rand_step x =
    let plus = multiplier * (x % quotient) in
    let minus = remainder * (x / quotient) in
    if ltb minus plus then plus - minus else plus + modulus - minus

-- `rand_val` of a seed, an `int` as a word of 32 bits: the new `x`, and the numerator of the value, which is
-- divided by the modulus.
unfoldable pub rand_val : (seed x : ℕ) → ℕ × ℕ
rand_val seed x =
    if ltb 0 seed && ltb seed 0x8000_0000 then (seed, 0) else (rand_step x, rand_step x)

-- `init_zipf` of such a seed: the new `x`, or a failure.
unfoldable pub init_zipf : (seed x : ℕ) → Option ℕ
init_zipf seed x = if seed == 0 || leb 0x8000_0000 seed then none else some (rand_val seed x).0

-- The first loop of `zipf`: numbers are drawn until one is neither 0 nor 1. The new `x` is the
-- numerator of the number.
unfoldable pub draw : (fuel x : ℕ) → Outcome ℕ
draw zero x = out_of_fuel
draw (suc fuel) x =
    let z = (rand_val 0 x).1 in
    let again = draw fuel z in if z == 0 || z == modulus then again else done z

-- The second loop of `zipf`: the first of the `left` values from `i` on at which the sum of
-- probabilities reaches `z`. The sum is in floating point: `reaches` says whether that of the first
-- `i` of `n` values does. Without such a value `zipf_value` is not set.
unfoldable pub search_rank : (reaches : (n i z : ℕ) → Bool) → (n z left i : ℕ) → Option ℕ
search_rank reaches n z zero i = none
search_rank reaches n z (suc left) i =
    let rest = search_rank reaches n z left (i + 1) in if reaches n i z then some i else rest

-- `zipf` of `n`: the value, and the new `x`. An assertion on what is not set is taken to fail.
unfoldable pub zipf : (reaches : (n i z : ℕ) → Bool) → (fuel n x : ℕ) → Outcome (ℕ × ℕ)
zipf reaches fuel n x = draw fuel x >>= λ z. ranked z (search_rank reaches n z n 1)
  where
    ranked : ℕ → Option ℕ → Outcome (ℕ × ℕ)
    ranked z none = aborted
    ranked z (some value) = assert (leb 1 value && leb value n) >> done (value, z)
