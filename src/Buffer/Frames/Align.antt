-- ===== src/Buffer/Frames/Align.antt =====
-- `Round_to_alignment` (src/Buffer.cc) as arithmetic.
use native.Mathlib.Nat.{pow-suc, one-le-pow, div-lt_iff_lt-mul}
use cachetest.Prelude.{
  ℕ, zero, suc, ◌+◌, ◌-◌, ◌*◌, ◌/◌, ◌%◌, ◌^◌, ◌≤◌, ◌<◌, ◌≡◌, ap, arith, two64, u64, pred64,
  bit_and-high, mul_mod,
}
use cachetest.Buffer.Frames.{round_to_alignment}

pub split_power : (j k : ℕ) → 2 ^ (j + k) ≡ 2 ^ j * 2 ^ k
split_power zero k = let none : 0 + k ≡ k = omega arith in rw none (omega arith)
split_power (suc j) k = grind (arith, split_power j k, pow-suc 2 j, pow-suc 2 (j + k))

-- A power of two up to 2^63 divides 2^64.
power_room : (k : ℕ) → k ≤ 63 → 2 ^ (64 - k) * 2 ^ k ≡ two64
power_room k h =
    let whole : (64 - k) + k ≡ 64 = omega arith in
    omega (arith, split_power (64 - k) k, ap (λ (n : ℕ). 2 ^ n) whole)

-- The complement of the bits below a power of two, in 64 bits.
complement : (a b : ℕ) → 1 ≤ b → a * b ≡ two64 → two64 - 1 - (b - 1) ≡ (a - 1) * b
complement zero b h e = absurd (omega (arith, e))
complement (suc a) b h e =
    let one : suc a - 1 ≡ a = omega arith in
    let whole : suc a * b ≡ a * b + b = grind arith in rw one (omega (arith, e, whole))

-- Where nothing overflows, the address goes up to the next multiple of a power of two.
pub round_to_alignment-power :
    (address k : ℕ)
    → k ≤ 63
    → address + 2 ^ k ≤ two64
    → round_to_alignment address (2 ^ k) ≡ (address + (2 ^ k - 1)) / 2 ^ k * 2 ^ k
unfolding round_to_alignment
round_to_alignment-power address k h room =
    rw (value, mask) (bit_and-high k (64 - k) (address + (2 ^ k - 1)) small)
  where
    pos : 1 ≤ 2 ^ k
    pos = one-le-pow k 2 (omega arith)

    less : pred64 (2 ^ k) ≡ 2 ^ k - 1
    less = omega (arith, pos)

    value : u64 (address + pred64 (2 ^ k)) ≡ address + (2 ^ k - 1)
    value = omega (arith, less, pos)

    mask : two64 - 1 - pred64 (2 ^ k) ≡ (2 ^ (64 - k) - 1) * 2 ^ k
    mask = rw less (complement (2 ^ (64 - k)) (2 ^ k) pos (power_room k h))

    small : (address + (2 ^ k - 1)) / 2 ^ k < 2 ^ (64 - k)
    small =
        (div-lt_iff_lt-mul {k = 2 ^ k} {x = address + (2 ^ k - 1)} {y = 2 ^ (64 - k)} pos).1
          (omega (arith, pos, power_room k h))

-- The result is a multiple of the alignment, a power of two, and the first one that is not below the
-- address, if the address is at least one alignment below 2^64.
pub round_to_alignment-le :
    (address k : ℕ)
    → k ≤ 63
    → address + 2 ^ k ≤ two64
    → (round_to_alignment address (2 ^ k) % 2 ^ k ≡ 0)
      × (address ≤ round_to_alignment address (2 ^ k))
      × (round_to_alignment address (2 ^ k) < address + 2 ^ k)
round_to_alignment-le address k h room =
    rw (round_to_alignment-power address k h room)
      (multiple ((address + (2 ^ k - 1)) / 2 ^ k), grind (arith, pos), grind (arith, pos))
  where
    pos : 1 ≤ 2 ^ k
    pos = one-le-pow k 2 (omega arith)

    multiple : (q : ℕ) → q * 2 ^ k % 2 ^ k ≡ 0
    multiple q = let swap : q * 2 ^ k ≡ 2 ^ k * q = grind arith in rw (swap, mul_mod (2 ^ k) q)
