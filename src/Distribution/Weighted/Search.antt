-- ===== src/Distribution/Weighted/Search.antt =====
-- The binary search of `getNextIDX` (src/Distribution.cc).
use cachetest.Prelude.{
  done, ℕ, zero, suc, ◌+◌, ◌/◌, ◌≤◌, ◌<◌, ◌≡◌, refl, ◌⊎◌, inl, inr, arith, List, [], ◌∷◌, false,
  get_or, length, order_cases,
}
use cachetest.Distribution.Weighted.{search, find_idx}
use cachetest.Distribution.Subpath.Distribute.{is_empty}

-- The numbers before `u` are at most `key`, those from `u` on are greater.
pub record IsBound (cdf : List ℕ) (key u : ℕ) : Type 0 where
  pub below : (i : ℕ) → i < u → get_or cdf i 0 ≤ key
  pub above : (i : ℕ) → u ≤ i → i < length cdf → key < get_or cdf i 0

module _ (cdf : List ℕ) (key : ℕ) where
  search-left :
      (k min max mid : ℕ)
      → min < max
      → key < get_or cdf ((max + min) / 2) 0
      → search (suc k) cdf key min max mid
        ≡ search k cdf key min ((max + min) / 2) ((max + min) / 2)
  unfolding search
  search-left k min max mid h lt = ground arith

  search-right :
      (k min max mid : ℕ)
      → min < max
      → get_or cdf ((max + min) / 2) 0 ≤ key
      → search (suc k) cdf key min max mid
        ≡ search k cdf key ((max + min) / 2 + 1) max ((max + min) / 2)
  unfolding search
  search-right k min max mid h le = ground arith

  search-end : (k min max mid : ℕ) → max ≤ min → search k cdf key min max mid ≡ mid
  unfolding search
  search-end zero min max mid h = refl
  search-end (suc k) min max mid h = ground arith

  -- Where the bound is, with regard to an index that is compared.
  bound_left : (u i : ℕ) → IsBound cdf key u → key < get_or cdf i 0 → u ≤ i
  bound_left u i b lt = elim (order_cases i u) [
    | inl before ↦ absurd (omega (arith, b.below i before))
    | inr rest ↦ rest
  ]

  bound_right : (u i : ℕ) → IsBound cdf key u → i < length cdf → get_or cdf i 0 ≤ key → i < u
  bound_right u i b h le = elim (order_cases i u) [
    | inl before ↦ before
    | inr rest ↦ absurd (omega (arith, b.above i rest h))
  ]

  -- The result is the bound or the index before it, once a round has been made.
  search_lem :
      (k min max mid u : ℕ)
      → IsBound cdf key u
      → max ≤ length cdf
      → max ≤ min + k
      → min ≤ u
      → u ≤ max
      → (max ≤ min → (mid ≡ u) ⊎ (suc mid ≡ u))
      → (search k cdf key min max mid ≡ u) ⊎ (suc (search k cdf key min max mid) ≡ u)
  search_lem zero min max mid u b size fuel lo hi start =
      rw (search-end zero min max mid (omega arith)) (start (omega arith))
  search_lem (suc k) min max mid u b size fuel lo hi start = elim (order_cases min max) [
    | inr over ↦ rw (search-end (suc k) min max mid over) (start over)
    | inl more ↦
        let middle = (max + min) / 2 in
        elim (order_cases key (get_or cdf middle 0)) [
          | inl lt ↦
              let left = bound_left u middle b lt in
              rw (search-left k min max mid more lt) (
                search_lem k min middle middle u b (omega arith) (omega arith) lo left
                  (λ stop. inl (omega arith)))
          | inr le ↦
              let right = bound_right u middle b (omega arith) le in
              rw (search-right k min max mid more le) (
                search_lem k (middle + 1) max middle u b size (omega arith) (omega arith) hi
                  (λ stop. inr (omega arith)))
        ]
  ]

  -- The result is an index that has been compared.
  search_lt :
      (k min max mid : ℕ)
      → max ≤ length cdf
      → max ≤ min + k
      → (max ≤ min → mid < length cdf)
      → search k cdf key min max mid < length cdf
  search_lt zero min max mid size fuel start =
      rw (search-end zero min max mid (omega arith)) (start (omega arith))
  search_lt (suc k) min max mid size fuel start = elim (order_cases min max) [
    | inr over ↦ rw (search-end (suc k) min max mid over) (start over)
    | inl more ↦
        let middle = (max + min) / 2 in
        elim (order_cases key (get_or cdf middle 0)) [
          | inl lt ↦
              rw (search-left k min max mid more lt)
                (search_lt k min middle middle (omega arith) (omega arith) (λ stop. omega arith))
          | inr le ↦
              rw (search-right k min max mid more le)
                (search_lt k (middle + 1) max middle size (omega arith) (λ stop. omega arith))
        ]
  ]

is_empty-false : (xs : List ℕ) → 0 < length xs → is_empty xs ≡ false
is_empty-false [] h = absurd (omega arith)
is_empty-false (x ∷ xs) h = refl

-- On a vector that is not empty, where the numbers before index `u` are at most `key` and the others
-- greater: the search ends, and the index returned is in the vector, and is `u` or the one before
-- it.
pub find_idx-near :
    (cdf : List ℕ) (key u : ℕ)
    → 0 < length cdf
    → u ≤ length cdf
    → IsBound cdf key u
    → (idx : ℕ) × (find_idx cdf key ≡ done idx) × (idx < length cdf) × ((idx ≡ u) ⊎ (suc idx ≡ u))
unfolding find_idx
find_idx-near cdf key u pos h b = (
  search (length cdf) cdf key 0 (length cdf) 0,
  rw (is_empty-false cdf pos),
  search_lt cdf key (length cdf) 0 (length cdf) 0 (omega arith) (omega arith)
      (λ stop. absurd (omega arith)),
  search_lem cdf key (length cdf) 0 (length cdf) 0 u b (omega arith) (omega arith) (omega arith) h
      (λ stop. absurd (omega arith)),
)

-- Whatever the key, the index is in the vector.
pub find_idx-inside :
    (cdf : List ℕ) (key : ℕ)
    → 0 < length cdf
    → (idx : ℕ) × (find_idx cdf key ≡ done idx) × (idx < length cdf)
unfolding find_idx
find_idx-inside cdf key pos = (
  search (length cdf) cdf key 0 (length cdf) 0,
  rw (is_empty-false cdf pos),
  search_lt cdf key (length cdf) 0 (length cdf) 0 (omega arith) (omega arith)
      (λ stop. absurd (omega arith)),
)
