-- ===== src/Distribution/Subpath/Prepare.antt =====
-- The chunk as it stands before `uniformSubpath` (src/Distribution.cc) lays the chain: each
-- dataline but the last holds an index, no index twice, and every `pathIndex` is -1.
use mathlib.Core.List.{Permᴰ}
use cachetest.Prelude.{
  ℕ, suc, ◌+◌, ◌-◌, ◌*◌, ◌≤◌, ◌<◌, ◌≡◌, ap, sym, ◌∙◌, refl, ◌⊎◌, inl, inr, arith, minus_one,
  order_cases, two32, List, [], ◌∷◌, map, length, get_or, All-get_or, range, perm-range-lt,
  perm-range-length,
}
use cachetest.Memory.{Memory, load32}
use cachetest.Memory.Words.{load32-ext}
use cachetest.Distribution.Subpath.{
  fill, write_indices, shuffle_lines, path_index, index_to_shuffle, line_size,
}
use cachetest.Distribution.Subpath.Fill.{fill-other, load32-fill}
use cachetest.Distribution.Subpath.Lines.{
  load32-write_indices_path, load32-write_indices, write_indices-other, shuffle_lines-other,
  load32-shuffle_lines,
}
use cachetest.Distribution.Subpath.Link.{Indices}

Indices-of_words :
    (m : Memory) (base i : ℕ) (os : List ℕ)
    → ((l : ℕ)
        → i ≤ l
        → l < i + length os
        → load32 m (index_to_shuffle base l) ≡ suc (get_or os (l - i) 0))
    → Indices m base i (map suc os)
Indices-of_words m base i [] h = tt
Indices-of_words m base i (x ∷ os) h =
    let first : i - i ≡ 0 = omega arith in
    (
      h i (omega arith) (omega arith) ∙ rw first,
      Indices-of_words m base (i + 1) os λ l lo hi.
          let later : l - i ≡ suc (l - (i + 1)) = omega arith in
          h l (omega arith) (omega arith) ∙ rw later,
    )

-- The memory after the fill, the numbering and the shuffle of `k + 1` datalines.
unfoldable pub prepared : ℕ → ℕ → List ℕ → Memory → Memory
prepared k base order m =
    shuffle_lines order base (write_indices k 0 base (fill (line_size * suc k) 0 base m))

module _ (k base : ℕ) (order : List ℕ) (m : Memory) (p : Permᴰ order (range k)) where
  filled_path :
      (l : ℕ)
      → l < suc k
      → load32 (write_indices k 0 base (fill (line_size * suc k) 0 base m)) (path_index base l)
        ≡ minus_one
  filled_path l h =
      load32-write_indices_path k 0 base _ l
      ∙ load32-fill (line_size * suc k) base m (path_index base l) (omega arith) (omega arith)

  pub prepared-path :
      (l : ℕ) → l < suc k → load32 (prepared k base order m) (path_index base l) ≡ minus_one
  unfolding prepared
  prepared-path l h = elim (order_cases l k) [
    | inl moved ↦
        let from = get_or order l 0 in
        load32-shuffle_lines order base _ l 0 (path_index base l) (path_index base from)
          (omega (arith, perm-range-length k p)) (omega arith) (omega arith) (omega arith)
        ∙ filled_path from (
            omega (
              arith,
              All-get_or (λ x. x < k) order l 0 (omega (arith, perm-range-length k p))
                  (perm-range-lt k p),
            ))
    | inr still ↦
        load32-ext _ _ (path_index base l) (λ x lo hi.
          shuffle_lines-other order base _ x (inr (omega (arith, perm-range-length k p))))
        ∙ filled_path l h
  ]

  pub prepared-Indices : suc k < two32 → Indices (prepared k base order m) base 0 (map suc order)
  unfolding prepared
  prepared-Indices small = Indices-of_words _ base 0 order λ l lo hi.
      let from = get_or order l 0 in
      let from_lt = All-get_or (λ x. x < k) order l 0 (omega arith) (perm-range-lt k p) in
      let same : l - 0 ≡ l = omega arith in
      load32-shuffle_lines order base _ l 4 (index_to_shuffle base l) (index_to_shuffle base from)
        (omega arith) (omega arith) refl refl
      ∙ load32-write_indices k 0 base _ from (omega arith) (omega arith) (omega arith)
      ∙ ap (λ j. suc (get_or order j 0)) (sym same)

  pub prepared-other :
      (x : ℕ) → (x < base) ⊎ (base + line_size * suc k + 3 ≤ x) → prepared k base order m x ≡ m x
  unfolding prepared
  prepared-other x h =
      shuffle_lines-other order base _ x (ground (arith, perm-range-length k p))
      ∙ write_indices-other k 0 base _ x (ground arith)
      ∙ fill-other (line_size * suc k) 0 base m x (ground arith)
