-- ===== src/Chase/Race/Safe.antt =====
-- What holds of the threads and the words of the subpaths (src/cachetest.cc) in any interleaving.
use mathlib.Core.List.{Memᴰ}
use cachetest.Prelude.{
  ℕ, ◌*◌, ◌<◌, ◌≡◌, ◌≢◌, refl, ap, ◌∙◌, ◌⊎◌, inl, inr, arith, false, List, [], ◌∷◌, ◌++◌, map, All,
  All_mono, minus_one, eq_cases,
}
use cachetest.Memory.{Memory, load32, store32}
use cachetest.Memory.Words.{Apart}
use cachetest.Memory.Chain.{sources}
use cachetest.Memory.Route.{word}
use cachetest.Distribution.Subpath.Distribute.Layer.{words_per_line}
use cachetest.Distribution.Subpath.Distribute.Ring.{chunk_at, Closed}
use cachetest.Chase.{SubpathInfo, alarm_handler, Chaser, chase_step, stopped}
use cachetest.Chase.Split.{itself}
use cachetest.Chase.Alarm.{start-Apart}
use cachetest.Chase.Race.{Thread, World, Step, chase, alarm, Run, stay, go}
use cachetest.Chase.Race.Wounded.{Wounded, Wounded-store32, Wounded-next, Goes}

-- The words before the last of a chain through words are these words.
sources-words :
    (P : ℕ → Type 0) (base i : ℕ) (js : List ℕ) (goal : ℕ)
    → All (λ k. P (word base k)) (i ∷ js)
    → All P (sources (word base i) (map (word base) js ++ goal ∷ []))
sources-words P base i [] goal h = h
sources-words P base i (j ∷ js) goal h = (h.0, sources-words P base j js goal h.1)

module _ (Shape : List ℕ → Type 0) (at per subpaths : ℕ) (m0 : Memory) (infos : List SubpathInfo)
    (pos : 0 < per) (cycles : (j : ℕ) → j < subpaths → Closed Shape at per itself m0 j) where
  -- The index is that of a word of the subpath's cycle, or says that the test is over.
  abbrev pub OnCycle : (j : ℕ) → j < subpaths → ℕ → Type 0
  OnCycle j h idx =
      ((k : ℕ) × Memᴰ k (0 ∷ (cycles j h).steps) × (idx ≡ word (chunk_at at per j) k))
      ⊎ (idx ≡ minus_one)

  abbrev pub IsOnPath : Thread → Type 0
  IsOnPath t = (h : t.subpath_idx < subpaths) × OnCycle t.subpath_idx h t.chaser.index

  pub record Sound (w : World) : Type 0 where
    pub wounded :
        (j : ℕ) (h : j < subpaths)
        → Wounded w.memory
            (word (chunk_at at per j) 0)
            (map (word (chunk_at at per j)) (cycles j h).steps ++ chunk_at at per j ∷ [])
    pub threads : All IsOnPath w.threads
    pub alarm : alarm_handler w.pending w.memory ≡ alarm_handler infos m0
    pub pending : All (λ info. (i : ℕ) × (info.start_idx ≡ chunk_at at per i)) w.pending

  -- A read leads on along the cycle, or to -1.
  chase_step-OnCycle :
      (w : World) (j : ℕ) (h : j < subpaths) (c : Chaser)
      → Sound w
      → stopped c ≡ false
      → OnCycle j h c.index
      → OnCycle j h (chase_step w.memory c).index
  unfolding chase_step stopped
  chase_step-OnCycle w j h c s running (inr e) = absurd (ground arith)
  chase_step-OnCycle w j h c s running (inl (k, on, e)) = rw e (
      goes k (
        Wounded-next w.memory (chunk_at at per j) 0 (cycles j h).steps (chunk_at at per j) k on
          (s.wounded j h)))
    where
      goes :
          (k : ℕ)
          → Goes w.memory
              (chunk_at at per j)
              (cycles j h).steps
              (chunk_at at per j)
              (word (chunk_at at per j) k)
          → OnCycle j h (load32 w.memory (word (chunk_at at per j) k))
      goes k (inl broken) = inr broken
      goes k (inr (inl back)) = inl (0, Memᴰ.head refl, back ∙ omega arith)
      goes k (inr (inr (k', on', next))) = inl (k', Memᴰ.tail on', next)

  All-replace :
      (before : List Thread) (t t' : Thread) (after : List Thread)
      → (IsOnPath t → IsOnPath t')
      → All IsOnPath (before ++ t ∷ after)
      → All IsOnPath (before ++ t' ∷ after)
  All-replace [] t t' after f h = (f h.0, h.1)
  All-replace (b ∷ before) t t' after f h = (h.0, All-replace before t t' after f h.1)

  -- The handler writes to the first word of a subpath.
  alarm-away :
      (i j : ℕ) (h : j < subpaths)
      → All
          (λ x. (x ≡ chunk_at at per i) ⊎ Apart (chunk_at at per i) x)
          (sources
            (word (chunk_at at per j) 0)
            (map (word (chunk_at at per j)) (cycles j h).steps ++ chunk_at at per j ∷ []))
  alarm-away i j h =
      let c = cycles j h in
      sources-words (λ x. (x ≡ chunk_at at per i) ⊎ Apart (chunk_at at per i) x) (chunk_at at per j)
        0 c.steps (chunk_at at per j)
        (All_mono {P = λ k. k < words_per_line * per}
          (λ k lt. away k lt (eq_cases j i) (eq_cases k 0)) (0 ∷ c.steps) c.bound)
    where
      away :
          (k : ℕ)
          → k < words_per_line * per
          → (j ≡ i) ⊎ (j ≢ i)
          → (k ≡ 0) ⊎ (k ≢ 0)
          → (word (chunk_at at per j) k ≡ chunk_at at per i)
            ⊎ Apart (chunk_at at per i) (word (chunk_at at per j) k)
      away k lt (inr other) which = inr (start-Apart at per i j k pos other lt)
      away k lt (inl same) (inl first) = inl (omega (arith, ap (λ (z : ℕ). z * per) same))
      away k lt (inl same) (inr later) = inr (inl (omega (arith, ap (λ (z : ℕ). z * per) same)))

  Step-Sound : (w v : World) → Step w v → Sound w → Sound v
  unfolding alarm_handler
  Step-Sound w v (chase before t after running) s = record {
    wounded = s.wounded;
    threads =
        All-replace before t _ after
          (λ on. (on.0, chase_step-OnCycle w t.subpath_idx on.0 t.chaser s running on.1)) s.threads;
    alarm = s.alarm;
    pending = s.pending;
  }
  Step-Sound w v (alarm {m} {info}) s = record {
    wounded = λ j h.
        Wounded-store32 m info.start_idx _ _ (rw s.pending.0.1 (alarm-away s.pending.0.0 j h))
          (s.wounded j h);
    threads = s.threads;
    alarm = s.alarm;
    pending = s.pending.1;
  }

  pub Run-Sound : (w v : World) → Run w v → Sound w → Sound v
  Run-Sound w v stay s = s
  Run-Sound w v (go {v = u} r step) s = Step-Sound u v step (Run-Sound w u r s)

-- The handler can go through without any read in between.
pub Run-alarm_handler :
    (w : World) (m : Memory) (p : List SubpathInfo) (ts : List Thread)
    → Run w (record { memory = m; pending = p; threads = ts })
    → Run w (record { memory = alarm_handler p m; pending = []; threads = ts })
unfolding alarm_handler
Run-alarm_handler w m [] ts r = r
Run-alarm_handler w m (info ∷ p) ts r =
    Run-alarm_handler w (store32 m info.start_idx minus_one) p ts (go r alarm)
