-- ===== src/Chase/Alarm.antt =====
-- `alarm_handler` and `loop` (src/cachetest.cc): when the time is up, every thread stops.
pub mod Stop
use cachetest.Prelude.{
  ℕ, zero, suc, ◌+◌, ◌*◌, ◌≤◌, ◌<◌, ◌≡◌, ◌≢◌, refl, ap, sym, subst, ◌∙◌, ◌⊎◌, inl, inr, arith, List,
  [], ◌∷◌, length, All, All_mono, All_map2, All-last, last, two32, minus_one, order_cases, eq_cases,
}
use cachetest.Memory.{Memory, load32, store32}
use cachetest.Memory.Words.{Apart, load32-store32, load32-store32-Apart}
use cachetest.Memory.Route.{word, word-Apart}
use cachetest.Memory.Chain.{Chain, sources}
use cachetest.Distribution.Subpath.{line_size}
use cachetest.Distribution.Subpath.Distribute.Layer.{words_per_line}
use cachetest.Distribution.Subpath.Distribute.Ring.{chunk_at, chunk_room, Closed}
use cachetest.Chase.{SubpathInfo, alarm_handler}
use cachetest.Chase.Split.{chunk_apart}

-- The infos name the first words of the chunks from `i` on.
abbrev pub StartsFrom : ℕ → ℕ → ℕ → List SubpathInfo → Type 0
StartsFrom at per i [] = Unit
StartsFrom at per i (info ∷ infos) =
    (info.start_idx ≡ chunk_at at per i) × StartsFrom at per (i + 1) infos

-- A word of one chunk is apart from the first word of another.
pub start-Apart :
    (at per i j k : ℕ)
    → 0 < per
    → j ≢ i
    → k < words_per_line * per
    → Apart (chunk_at at per i) (word (chunk_at at per j) k)
start-Apart at per i j k pos ne h = elim (order_cases j i) [
  | inl before ↦ inr (omega (arith, chunk_room j i per before))
  | inr rest ↦ inl (omega (arith, chunk_room i j per (omega arith)))
]

module _ (at per : ℕ) (pos : 0 < per) where
  -- Words that are not the first of a chunk stay as they are.
  pub alarm_handler-kept :
      (i : ℕ) (infos : List SubpathInfo) (m : Memory) (j k : ℕ)
      → StartsFrom at per i infos
      → 0 ≢ k
      → k < words_per_line * per
      → load32 (alarm_handler infos m) (word (chunk_at at per j) k)
        ≡ load32 m (word (chunk_at at per j) k)
  unfolding alarm_handler
  alarm_handler-kept i [] m j k starts ne h = refl
  alarm_handler-kept i (info ∷ infos) m j k starts ne h =
      alarm_handler-kept (i + 1) infos _ j k starts.1 ne h
      ∙ load32-store32-Apart m info.start_idx minus_one (word (chunk_at at per j) k)
          (rw starts.0 (apart (eq_cases j i)))
    where
      apart : (j ≡ i) ⊎ (j ≢ i) → Apart (chunk_at at per i) (word (chunk_at at per j) k)
      apart (inl here) = inl (omega (arith, ap (λ (z : ℕ). z * per) here))
      apart (inr other) = start-Apart at per i j k pos other h

  alarm_handler_before :
      (i : ℕ) (infos : List SubpathInfo) (m : Memory) (j : ℕ)
      → StartsFrom at per i infos
      → j < i
      → load32 (alarm_handler infos m) (chunk_at at per j) ≡ load32 m (chunk_at at per j)
  unfolding alarm_handler
  alarm_handler_before i [] m j starts h = refl
  alarm_handler_before i (info ∷ infos) m j starts h =
      alarm_handler_before (i + 1) infos _ j starts.1 (omega arith)
      ∙ load32-store32-Apart m info.start_idx minus_one (chunk_at at per j)
          (rw starts.0 (inr (omega (arith, chunk_room j i per h))))

  -- The first word of every chunk is -1.
  pub alarm_handler-breaks :
      (i : ℕ) (infos : List SubpathInfo) (m : Memory) (j : ℕ)
      → StartsFrom at per i infos
      → i ≤ j
      → j < i + length infos
      → load32 (alarm_handler infos m) (chunk_at at per j) ≡ minus_one
  unfolding alarm_handler
  alarm_handler-breaks i [] m j starts lo hi = absurd (omega arith)
  alarm_handler-breaks i (info ∷ infos) m j starts lo hi = elim (eq_cases j i) [
    | inl here ↦
        alarm_handler_before (i + 1) infos _ j starts.1 (omega arith)
        ∙ rw (starts.0, here) (load32-store32 m (chunk_at at per i) minus_one (omega arith))
    | inr later ↦ alarm_handler-breaks (i + 1) infos _ j starts.1 (omega arith) (omega arith)
  ]
