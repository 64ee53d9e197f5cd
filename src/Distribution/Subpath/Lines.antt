-- ===== src/Distribution/Subpath/Lines.antt =====
-- What numbering and shuffling the datalines in `uniformSubpath` (src/Distribution.cc) do to each
-- word.
use cachetest.Prelude.{
  ℕ, zero, suc, ◌+◌, ◌-◌, ◌/◌, ◌%◌, ◌*◌, ◌≤◌, ◌<◌, ◌≡◌, ◌∙◌, refl, ◌⊎◌, inl, inr, arith, eq_cases,
  u32, two32, List, length, get_or, subst,
}
use cachetest.Memory.{Memory, load32, store32}
use cachetest.Memory.Words.{store32-other, load32-store32, load32-store32-Apart}
use cachetest.Distribution.Subpath.{
  write_indices, path_index, index_to_shuffle, shuffle_lines, line_size,
}

-- The words `pathIndex` are not written.
pub load32-write_indices_path :
    (k i base : ℕ) (m : Memory) (l : ℕ)
    → load32 (write_indices k i base m) (path_index base l) ≡ load32 m (path_index base l)
unfolding write_indices
load32-write_indices_path zero i base m l = refl
load32-write_indices_path (suc k) i base m l =
    load32-write_indices_path k (i + 1) base _ l
    ∙ load32-store32-Apart m (index_to_shuffle base i) (u32 (i + 1)) (path_index base l)
        (ground arith)

load32-write_indices_before :
    (k i base : ℕ) (m : Memory) (l : ℕ)
    → l < i
    → load32 (write_indices k i base m) (index_to_shuffle base l)
      ≡ load32 m (index_to_shuffle base l)
unfolding write_indices
load32-write_indices_before zero i base m l h = refl
load32-write_indices_before (suc k) i base m l h =
    load32-write_indices_before k (i + 1) base _ l (omega arith)
    ∙ load32-store32-Apart m (index_to_shuffle base i) (u32 (i + 1)) (index_to_shuffle base l)
        (inr (omega arith))

-- Dataline `l` holds index `l + 1`.
pub load32-write_indices :
    (k i base : ℕ) (m : Memory) (l : ℕ)
    → i ≤ l
    → l < i + k
    → suc l < two32
    → load32 (write_indices k i base m) (index_to_shuffle base l) ≡ suc l
unfolding write_indices
load32-write_indices zero i base m l lo hi small = absurd (omega arith)
load32-write_indices (suc k) i base m l lo hi small = elim (eq_cases i l) [
  | inl here ↦
      load32-write_indices_before k (i + 1) base (store32 m (index_to_shuffle base i) (u32 (i + 1)))
        l (omega arith)
      ∙ subst
          (λ y.
            load32 (store32 m (index_to_shuffle base i) (u32 (i + 1))) (index_to_shuffle base y)
            ≡ suc l)
          here
          (load32-store32 m (index_to_shuffle base i) (u32 (i + 1)) (omega arith) ∙ omega arith)
  | inr later ↦
      load32-write_indices k (i + 1) base (store32 m (index_to_shuffle base i) (u32 (i + 1))) l
        (omega arith) (omega arith) small
]

pub write_indices-other :
    (k i base : ℕ) (m : Memory) (x : ℕ)
    → (x < base) ⊎ (base + line_size * (i + k) ≤ x)
    → write_indices k i base m x ≡ m x
unfolding write_indices
write_indices-other zero i base m x h = refl
write_indices-other (suc k) i base m x h =
    write_indices-other k (i + 1) base (store32 m (index_to_shuffle base i) (u32 (i + 1))) x
      (ground arith)
    ∙ store32-other m (index_to_shuffle base i) (u32 (i + 1)) x (ground arith)

pub shuffle_lines-other :
    (order : List ℕ) (base : ℕ) (m : Memory) (x : ℕ)
    → (x < base) ⊎ (base + line_size * length order ≤ x)
    → shuffle_lines order base m x ≡ m x
unfolding shuffle_lines
shuffle_lines-other order base m x h = ground arith

shuffle_lines-byte :
    (order : List ℕ) (base : ℕ) (m : Memory) (l c x y : ℕ)
    → l < length order
    → c < line_size
    → x ≡ path_index base l + c
    → y ≡ path_index base (get_or order l 0) + c
    → shuffle_lines order base m x ≡ m y
unfolding shuffle_lines
shuffle_lines-byte order base m l c x y h k ex ey = ground (arith, line, column)
  where
    line : (x - base) / line_size ≡ l
    line = omega arith

    column : (x - base) % line_size ≡ c
    column = omega arith

-- A word of dataline `l` comes from dataline `order[l]`.
pub load32-shuffle_lines :
    (order : List ℕ) (base : ℕ) (m : Memory) (l c a b : ℕ)
    → l < length order
    → c + 4 ≤ line_size
    → a ≡ path_index base l + c
    → b ≡ path_index base (get_or order l 0) + c
    → load32 (shuffle_lines order base m) a ≡ load32 m b
unfolding load32
load32-shuffle_lines order base m l c a b h k ea eb = omega (
  arith,
  shuffle_lines-byte order base m l c a b h (omega arith) ea eb,
  shuffle_lines-byte order base m l (c + 1) (a + 1) (b + 1) h (omega arith) (omega arith)
      (omega arith),
  shuffle_lines-byte order base m l (c + 2) (a + 2) (b + 2) h (omega arith) (omega arith)
      (omega arith),
  shuffle_lines-byte order base m l (c + 3) (a + 3) (b + 3) h (omega arith) (omega arith)
      (omega arith),
)
