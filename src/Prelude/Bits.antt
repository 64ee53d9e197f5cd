-- ===== src/Prelude/Bits.antt =====
-- Masks: the low and the high bits of a number, as arithmetic.
use Prim.Native.Nat.{
  ℕ, zero, suc, ◌+◌, ◌-◌, ◌*◌, ◌/◌, ◌%◌, ◌^◌, ◌≤◌, ◌<◌, min, max, digits, bit_and, bit_or,
  bit_and-bitwise, bit_or-bitwise,
}
use native.Mathlib.Nat.{pow-suc, one-le-pow, le_refl, div-add-mod', mod-lt}
use native.Mathlib.Omega.{arith}
use mathlib.Core.Path.{◌≡◌, refl, ap, sym, ◌∙◌, subst}

-- The fuel of the definition that the native operations stand for does not matter, if it is enough.
digits_enough :
    (z : ℕ → ℕ) (f : ℕ → ℕ → ℕ) (k l a b : ℕ) → a ≤ k → a ≤ l → digits z f k a b ≡ digits z f l a b
digits_enough z f zero zero a b h h' = refl
digits_enough z f zero (suc l) zero b h h' = refl
digits_enough z f zero (suc l) (suc a) b h h' = absurd (omega arith)
digits_enough z f (suc k) zero zero b h h' = refl
digits_enough z f (suc k) zero (suc a) b h h' = absurd (omega arith)
digits_enough z f (suc k) (suc l) zero b h h' = refl
digits_enough z f (suc k) (suc l) (suc a) b h h' =
    omega (arith, digits_enough z f k l (suc a / 2) (b / 2) (omega arith) (omega arith))

pub bit_and_halves : (a b : ℕ) → bit_and a b ≡ bit_and (a / 2) (b / 2) * 2 + min (a % 2) (b % 2)
bit_and_halves zero b = omega (arith, bit_and-bitwise 0 b, bit_and-bitwise 0 (b / 2))
bit_and_halves (suc a) b = omega (
  arith,
  bit_and-bitwise (suc a) b,
  bit_and-bitwise (suc a / 2) (b / 2),
  digits_enough (λ y. 0) min a (suc a / 2) (suc a / 2) (b / 2) (omega arith) (omega arith),
)

pub bit_or_halves : (a b : ℕ) → bit_or a b ≡ bit_or (a / 2) (b / 2) * 2 + max (a % 2) (b % 2)
bit_or_halves zero b = omega (arith, bit_or-bitwise 0 b, bit_or-bitwise 0 (b / 2))
bit_or_halves (suc a) b = omega (
  arith,
  bit_or-bitwise (suc a) b,
  bit_or-bitwise (suc a / 2) (b / 2),
  digits_enough (λ y. y) max a (suc a / 2) (suc a / 2) (b / 2) (omega arith) (omega arith),
)

bit_and-zero_below : (n a : ℕ) → a ≤ n → bit_and a 0 ≡ 0
bit_and-zero_below n zero h = refl
bit_and-zero_below zero (suc a) h = absurd (omega arith)
bit_and-zero_below (suc n) (suc a) h =
    omega (arith, bit_and_halves (suc a) 0, bit_and-zero_below n (suc a / 2) (omega arith))

pub bit_and-zero : (a : ℕ) → bit_and a 0 ≡ 0
bit_and-zero a = bit_and-zero_below a a (le_refl a)

double : (q k : ℕ) → q * 2 ^ suc k ≡ 2 * (q * 2 ^ k)
double q k = omega (arith, ap (λ (n : ℕ). q * n) (pow-suc 2 k))

-- A mask of low bits takes the remainder.
low_bits : (k q r : ℕ) → r < 2 ^ k → bit_and (q * 2 ^ k + r) (2 ^ k - 1) ≡ r
low_bits zero q r h = omega (arith, bit_and-zero (q * 2 ^ 0 + r))
low_bits (suc k) q r h = ground (
  arith,
  bit_and_halves (q * 2 ^ suc k + r) (2 ^ suc k - 1),
  double q k,
  pow-suc 2 k,
  one-le-pow k 2,
  low_bits k q (r / 2) (omega (arith, pow-suc 2 k)),
)

-- A mask of high bits leaves the remainder out.
high_bits : (k q r m : ℕ) → r < 2 ^ k → bit_and (q * 2 ^ k + r) (m * 2 ^ k) ≡ bit_and q m * 2 ^ k
high_bits zero q r m h =
    let value : q * 2 ^ 0 + r ≡ q = omega arith in
    let mask : m * 2 ^ 0 ≡ m = omega arith in rw (value, mask) (omega arith)
high_bits (suc k) q r m h = ground (
  arith,
  bit_and_halves (q * 2 ^ suc k + r) (m * 2 ^ suc k),
  double q k,
  double m k,
  double (bit_and q m) k,
  high_bits k q (r / 2) m (omega (arith, pow-suc 2 k)),
)

-- All of the bits.
all_bits : (k q : ℕ) → q < 2 ^ k → bit_and q (2 ^ k - 1) ≡ q
all_bits k q h =
    let value : 0 * 2 ^ k + q ≡ q = omega arith in
    subst (λ n. bit_and n (2 ^ k - 1) ≡ q) value (low_bits k 0 q h)

pub bit_and-low : (k a : ℕ) → bit_and a (2 ^ k - 1) ≡ a % 2 ^ k
bit_and-low k a =
    subst (λ n. bit_and n (2 ^ k - 1) ≡ a % 2 ^ k) (div-add-mod' a (2 ^ k))
      (low_bits k (a / 2 ^ k) (a % 2 ^ k) (mod-lt a (one-le-pow k 2 (omega arith))))

-- The bits from bit `k` on, of a number of `k + j` bits.
pub bit_and-high :
    (k j a : ℕ) → a / 2 ^ k < 2 ^ j → bit_and a ((2 ^ j - 1) * 2 ^ k) ≡ a / 2 ^ k * 2 ^ k
bit_and-high k j a h =
    subst (λ n. bit_and n ((2 ^ j - 1) * 2 ^ k) ≡ a / 2 ^ k * 2 ^ k) (div-add-mod' a (2 ^ k))
      (high_bits k (a / 2 ^ k) (a % 2 ^ k) (2 ^ j - 1) (mod-lt a (one-le-pow k 2 (omega arith)))
        ∙ ap (λ n. n * 2 ^ k) (all_bits j (a / 2 ^ k) h))

bit_or-zero_below : (n a : ℕ) → a ≤ n → bit_or a 0 ≡ a
bit_or-zero_below n zero h = omega (arith, bit_or-bitwise 0 0)
bit_or-zero_below zero (suc a) h = absurd (omega arith)
bit_or-zero_below (suc n) (suc a) h =
    omega (arith, bit_or_halves (suc a) 0, bit_or-zero_below n (suc a / 2) (omega arith))

pub bit_or-zero : (a : ℕ) → bit_or a 0 ≡ a
bit_or-zero a = bit_or-zero_below a a (le_refl a)

pub bit_or-zero_left : (b : ℕ) → bit_or 0 b ≡ b
bit_or-zero_left b = omega (arith, bit_or-bitwise 0 b)

-- Blocks of `k` bits are combined each by itself.
pub bit_or_blocks :
    (k q r p s : ℕ)
    → r < 2 ^ k
    → s < 2 ^ k
    → bit_or (q * 2 ^ k + r) (p * 2 ^ k + s) ≡ bit_or q p * 2 ^ k + bit_or r s
bit_or_blocks zero q r p s h h' =
    let left : q * 2 ^ 0 + r ≡ q = omega arith in
    let right : p * 2 ^ 0 + s ≡ p = omega arith in
    let no_rest : r ≡ 0 = omega arith in
    let no_other : s ≡ 0 = omega arith in
    rw (left, right, no_rest, no_other) (omega (arith, bit_or-zero 0))
bit_or_blocks (suc k) q r p s h h' = ground (
  arith,
  bit_or_halves (q * 2 ^ suc k + r) (p * 2 ^ suc k + s),
  bit_or_halves r s,
  double q k,
  double p k,
  double (bit_or q p) k,
  bit_or_blocks k q (r / 2) p (s / 2) (omega (arith, pow-suc 2 k)) (omega (arith, pow-suc 2 k)),
)

-- The `j` bits from bit `k` on.
pub bit_and-field : (k j a : ℕ) → bit_and a ((2 ^ j - 1) * 2 ^ k) ≡ a / 2 ^ k % 2 ^ j * 2 ^ k
bit_and-field k j a =
    subst (λ n. bit_and n ((2 ^ j - 1) * 2 ^ k) ≡ a / 2 ^ k % 2 ^ j * 2 ^ k)
      (div-add-mod' a (2 ^ k))
      (high_bits k (a / 2 ^ k) (a % 2 ^ k) (2 ^ j - 1) (mod-lt a (one-le-pow k 2 (omega arith)))
        ∙ ap (λ n. n * 2 ^ k) (bit_and-low j (a / 2 ^ k)))

-- A number below bit `k` leaves what is above it.
pub bit_or-within :
    (k q r s : ℕ) → r < 2 ^ k → s < 2 ^ k → bit_or (q * 2 ^ k + r) s ≡ q * 2 ^ k + bit_or r s
bit_or-within k q r s h h' =
    let whole : 0 * 2 ^ k + s ≡ s = omega arith in
    sym (ap (λ (n : ℕ). bit_or (q * 2 ^ k + r) n) whole)
    ∙ bit_or_blocks k q r 0 s h h'
    ∙ ap (λ (n : ℕ). n * 2 ^ k + bit_or r s) (bit_or-zero q)

pub bit_or-below : (k r p : ℕ) → r < 2 ^ k → bit_or r (p * 2 ^ k) ≡ p * 2 ^ k + r
bit_or-below k r p h =
    let left : 0 * 2 ^ k + r ≡ r = omega arith in
    let right : p * 2 ^ k + 0 ≡ p * 2 ^ k = omega arith in
    sym (ap (λ (n : ℕ). bit_or n (p * 2 ^ k)) left)
    ∙ sym (ap (λ (n : ℕ). bit_or (0 * 2 ^ k + r) n) right)
    ∙ bit_or_blocks k 0 r p 0 h (one-le-pow k 2 (omega arith))
    ∙ rw (bit_or-zero_left p, bit_or-zero r) refl
