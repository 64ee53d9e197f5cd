-- ===== src/Distribution/Linear/Cycle.antt =====
-- The path of `LinearDistribution` (src/Distribution.cc).
use mathlib.Core.List.{append_assoc, append-nil}
use cachetest.Prelude.{
  ℕ, zero, suc, ◌+◌, ◌*◌, ◌/◌, ◌%◌, ◌≤◌, ◌<◌, ◌≡◌, refl, ap, sym, ◌∙◌, inl, inr, arith, [], ◌∷◌,
  ◌++◌, map, range_from, range, u32, through_int, through_int_small, two32, ltb, true, eq_cases,
}
use cachetest.Memory.{load32, store32}
use cachetest.Memory.Words.{load32-store32, load32-store32-Apart}
use cachetest.Buffer.{get_size, buffer_offset}
use cachetest.Distribution.{Distribution}
use cachetest.Distribution.Subpath.{line_size, path_index}
use cachetest.Distribution.Linear.{linear_step, linear_loop, linear_do_distribute}

-- The buffer has `lines` datalines of 64 bytes, within the first 2^31.
pub record IsLines (d : Distribution) (lines : ℕ) : Type 0 where
  pub cacheline : d.cacheline ≡ line_size
  pub size : get_size d.buffer ≡ line_size * lines
  pub room : buffer_offset d.buffer + line_size * lines ≤ 0x8000_0000

module _ (base lines : ℕ) (room : base + line_size * lines ≤ 0x8000_0000) where
  -- What is kept by the rounds.
  pub record IsLinear (d : Distribution) : Type 0 where
    pub cacheline : d.cacheline ≡ line_size
    pub offset : buffer_offset d.buffer ≡ base

  step-IsLinear : (i : ℕ) (d : Distribution) → IsLinear d → IsLinear (linear_step lines i d)
  unfolding linear_step buffer_offset
  step-IsLinear i d t = record { cacheline = t.cacheline; offset = t.offset }

  step_write :
      (i : ℕ) (d : Distribution)
      → i < lines
      → IsLinear d
      → (linear_step lines i d).buffer.memory
        ≡ store32 d.buffer.memory (path_index base i) (path_index base ((i + 1) % lines))
  unfolding linear_step
  step_write i d h t = rw (t.cacheline, t.offset, place, value)
    where
      place : base + i * line_size ≡ path_index base i
      place = omega arith

      value : u32 ((i + 1) % lines * line_size + base) ≡ path_index base ((i + 1) % lines)
      value = omega arith

  abbrev next_line : ℕ → ℕ
  next_line i = (i + 1) % lines

  -- What the rounds from `i` on do to `d`.
  pub record Rounds (k i : ℕ) (d d' : Distribution) : Type 0 where
    pub earlier :
        (j : ℕ)
        → j < i
        → load32 d'.buffer.memory (path_index base j) ≡ load32 d.buffer.memory (path_index base j)
    pub written :
        (j : ℕ)
        → i ≤ j
        → j < i + k
        → load32 d'.buffer.memory (path_index base j) ≡ path_index base (next_line j)
    pub sequence : d'.sequence ≡ d.sequence ++ map (λ j. u32 (next_line j)) (range_from i k)
    pub entries : u32 d'.entries ≡ u32 (d.entries + k)

  step-written :
      (i : ℕ) (d : Distribution)
      → i < lines
      → IsLinear d
      → load32 (linear_step lines i d).buffer.memory (path_index base i)
        ≡ path_index base (next_line i)
  step-written i d h t =
      ap (λ m. load32 m (path_index base i)) (step_write i d h t)
      ∙ load32-store32 d.buffer.memory (path_index base i) (path_index base (next_line i))
          (omega arith)

  step-earlier :
      (i j : ℕ) (d : Distribution)
      → i < lines
      → j < i
      → IsLinear d
      → load32 (linear_step lines i d).buffer.memory (path_index base j)
        ≡ load32 d.buffer.memory (path_index base j)
  step-earlier i j d h lt t =
      ap (λ m. load32 m (path_index base j)) (step_write i d h t)
      ∙ load32-store32-Apart d.buffer.memory (path_index base i) (path_index base (next_line i))
          (path_index base j) (inr (omega arith))

  step-sequence :
      (i : ℕ) (d : Distribution)
      → (linear_step lines i d).sequence ≡ d.sequence ++ u32 (next_line i) ∷ []
  unfolding linear_step
  step-sequence i d = refl

  step-entries : (i : ℕ) (d : Distribution) → (linear_step lines i d).entries ≡ u32 (d.entries + 1)
  unfolding linear_step
  step-entries i d = refl

  linear_loop-Rounds :
      (k i : ℕ) (d : Distribution)
      → i + k ≤ lines
      → IsLinear d
      → Rounds k i d (linear_loop lines k i d)
  unfolding linear_loop
  linear_loop-Rounds zero i d h t = record {
    earlier = λ j lt. refl;
    written = λ j lo hi. absurd (omega arith);
    sequence = sym (append-nil d.sequence);
    entries = omega arith;
  }
  linear_loop-Rounds (suc k) i d h t =
      let d1 = linear_step lines i d in
      let one_more : i + 1 ≡ suc i = omega arith in
      let r = linear_loop-Rounds k (i + 1) d1 (omega arith) (step-IsLinear i d t) in
      record {
        earlier = λ j lt. r.earlier j (omega arith) ∙ step-earlier i j d (omega arith) lt t;
        written = λ j lo hi. elim (eq_cases j i) [
          | inl here ↦ rw here (r.earlier i (omega arith) ∙ step-written i d (omega arith) t)
          | inr later ↦ r.written j (omega arith) (omega arith)
        ];
        sequence = rw (← one_more) (
            r.sequence
            ∙ ap (λ xs. xs ++ map (λ j. u32 (next_line j)) (range_from (i + 1) k))
                (step-sequence i d)
            ∙ append_assoc d.sequence (u32 (next_line i) ∷ []) _);
        entries = omega (arith, r.entries, step-entries i d);
      }

-- On a buffer of `lines` datalines of 64 bytes within the first 2^31, after the call each dataline
-- points to the next, and the last to the first. The sequence names the datalines in the order of
-- the visits, and each is counted as an entry.
pub linear_do_distribute-Rounds :
    (d : Distribution) (lines : ℕ)
    → IsLines d lines
    → ((j : ℕ)
        → j < lines
        → load32 (linear_do_distribute d).buffer.memory (path_index (buffer_offset d.buffer) j)
          ≡ path_index (buffer_offset d.buffer) ((j + 1) % lines))
      × ((linear_do_distribute d).sequence ≡ map (λ j. u32 ((j + 1) % lines)) (range lines))
      × (u32 (linear_do_distribute d).entries ≡ u32 (d.entries + lines))
unfolding linear_do_distribute
linear_do_distribute-Rounds d lines fit =
    rw (count, positive) ((λ j h. r.written j (omega arith) (omega arith)), r.sequence, r.entries)
  where
    value : get_size d.buffer / d.cacheline ≡ lines
    value = rw (fit.size, fit.cacheline) (omega arith)

    count : through_int (get_size d.buffer / d.cacheline) ≡ lines
    count = rw value (through_int_small lines (omega (arith, fit.room)))

    positive : ltb lines two32 ≡ true
    positive = ground (arith, fit.room)

    r :
        Rounds
          (buffer_offset d.buffer)
          lines
          fit.room
          lines
          0
          (record d { sequence = [] })
          (linear_loop lines lines 0 (record d { sequence = [] }))
    r =
        linear_loop-Rounds (buffer_offset d.buffer) lines fit.room lines 0
          (record d { sequence = [] }) (omega arith)
          (record { cacheline = fit.cacheline; offset = refl })
