-- ===== src/Memory/Words.antt =====
-- Reading back what was written, and what a write leaves alone.
use cachetest.Prelude.{ℕ, ◌+◌, ◌≤◌, ◌<◌, ◌≡◌, ◌⊎◌, arith, two32}
use cachetest.Memory.{Memory, load32, store32}

-- Two words that share no byte.
abbrev pub Apart : ℕ → ℕ → Type 0
Apart a b = (a + 4 ≤ b) ⊎ (b + 4 ≤ a)

pub store32-other : (m : Memory) (a v x : ℕ) → (x < a) ⊎ (a + 4 ≤ x) → store32 m a v x ≡ m x
unfolding store32
store32-other m a v x h = ground arith

pub load32-store32 : (m : Memory) (a v : ℕ) → v < two32 → load32 (store32 m a v) a ≡ v
unfolding load32 store32
load32-store32 m a v h = ground arith

pub load32-store32-Apart :
    (m : Memory) (a v b : ℕ) → Apart a b → load32 (store32 m a v) b ≡ load32 m b
unfolding load32
load32-store32-Apart m a v b h = ground (
  arith,
  store32-other m a v b,
  store32-other m a v (b + 1),
  store32-other m a v (b + 2),
  store32-other m a v (b + 3),
)

-- A word is its four bytes.
pub load32-ext :
    (m m' : Memory) (a : ℕ) → ((x : ℕ) → a ≤ x → x < a + 4 → m' x ≡ m x) → load32 m' a ≡ load32 m a
unfolding load32
load32-ext m m' a h = omega (
  arith,
  h a (omega arith) (omega arith),
  h (a + 1) (omega arith) (omega arith),
  h (a + 2) (omega arith) (omega arith),
  h (a + 3) (omega arith) (omega arith),
)

pub load32-zero : (m : Memory) (a : ℕ) → ((x : ℕ) → a ≤ x → x < a + 4 → m x ≡ 0) → load32 m a ≡ 0
unfolding load32
load32-zero m a h = omega (
  arith,
  h a (omega arith) (omega arith),
  h (a + 1) (omega arith) (omega arith),
  h (a + 2) (omega arith) (omega arith),
  h (a + 3) (omega arith) (omega arith),
)
