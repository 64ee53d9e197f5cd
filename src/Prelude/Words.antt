-- ===== src/Prelude/Words.antt =====
-- Machine integers as native numbers: the conversions that the sources make between `size_t`
-- (64 bits), `unsigned int` (32 bits) and `int`.
use Prim.Native.Nat.{ℕ, ◌+◌, ◌-◌, ◌*◌, ◌/◌, ◌%◌, ◌<◌}
use mathlib.Core.Path.{◌≡◌}
use native.Mathlib.Omega.{arith}
use cachetest.Prelude.Tests.{ltb, if◌then◌else◌}

abbrev pub two32 : ℕ
two32 = 0x1_0000_0000

abbrev pub two64 : ℕ
two64 = 0x1_0000_0000_0000_0000

-- `(element_size_t)-1`
abbrev pub minus_one : ℕ
minus_one = 0xffff_ffff

-- Conversion to `unsigned int` and to `size_t`.
abbrev pub u32 : ℕ → ℕ
u32 x = x % two32

abbrev pub u64 : ℕ → ℕ
u64 x = x % two64

-- A `size_t` stored in an `int` and used as a `size_t` again: cut to 32 bits, then sign-extended.
abbrev pub through_int : ℕ → ℕ
through_int x = if ltb (x % two32) 0x8000_0000 then x % two32 else x % two32 + (two64 - two32)

-- `n - 1` of a `size_t`, which wraps at 0.
abbrev pub pred64 : ℕ → ℕ
pred64 n = (n + (two64 - 1)) % two64

pub through_int_small : (x : ℕ) → x < 0x8000_0000 → through_int x ≡ x
through_int_small x h = ground arith

pub pred64_pos : (n : ℕ) → 0 < n → n < two64 → pred64 n ≡ n - 1
pred64_pos n h k = omega arith

pub mul_div : (a b : ℕ) → 0 < a → a * b / a ≡ b
mul_div a b h = grind arith

pub mul_mod : (a b : ℕ) → a * b % a ≡ 0
mul_mod a b = grind arith
