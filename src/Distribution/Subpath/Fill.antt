-- ===== src/Distribution/Subpath/Fill.antt =====
-- What the first loops of `uniformSubpath` (src/Distribution.cc) do to each byte and word.
use cachetest.Prelude.{
  ℕ, zero, suc, ◌+◌, ◌≤◌, ◌<◌, ◌≡◌, ◌∙◌, subst, refl, ◌⊎◌, inl, inr, arith, minus_one, order_cases,
}
use cachetest.Memory.{Memory, load32, store32}
use cachetest.Memory.Words.{store32-other}
use cachetest.Distribution.Subpath.{fill}

pub fill-other :
    (k i base : ℕ) (m : Memory) (x : ℕ)
    → (x < base + i) ⊎ (base + i + k + 3 ≤ x)
    → fill k i base m x ≡ m x
unfolding fill
fill-other zero i base m x h = refl
fill-other (suc k) i base m x h =
    fill-other k (i + 1) base (store32 m (base + i) minus_one) x (ground arith)
    ∙ store32-other m (base + i) minus_one x (ground arith)

store32-minus_one : (m : Memory) (a : ℕ) → store32 m a minus_one a ≡ 255
unfolding store32
store32-minus_one m a = ground arith

fill-byte :
    (k i base : ℕ) (m : Memory) (x : ℕ) → base + i ≤ x → x < base + i + k → fill k i base m x ≡ 255
unfolding fill
fill-byte zero i base m x lo hi = absurd (omega arith)
fill-byte (suc k) i base m x lo hi = elim (order_cases x (base + i + 1)) [
  | inl first ↦
      let here : base + i ≡ x = omega arith in
      fill-other k (i + 1) base (store32 m (base + i) minus_one) x (inl (omega arith))
      ∙ subst (λ y. store32 m (base + i) minus_one y ≡ 255) here (store32-minus_one m (base + i))
  | inr later ↦
      fill-byte k (i + 1) base (store32 m (base + i) minus_one) x (omega arith) (omega arith)
]

-- After the fill, every word inside the chunk is -1.
pub load32-fill :
    (k base : ℕ) (m : Memory) (a : ℕ)
    → base ≤ a
    → a + 4 ≤ base + k
    → load32 (fill k 0 base m) a ≡ minus_one
unfolding load32
load32-fill k base m a lo hi = omega (
  arith,
  fill-byte k 0 base m a (omega arith) (omega arith),
  fill-byte k 0 base m (a + 1) (omega arith) (omega arith),
  fill-byte k 0 base m (a + 2) (omega arith) (omega arith),
  fill-byte k 0 base m (a + 3) (omega arith) (omega arith),
)
