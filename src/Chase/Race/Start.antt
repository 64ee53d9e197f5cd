-- ===== src/Chase/Race/Start.antt =====
-- The threads of `threadTest` (src/cachetest.cc) when they are at the barrier.
use mathlib.Core.List.{Memᴰ}
use cachetest.Prelude.{
  ℕ, zero, suc, ◌+◌, ◌*◌, ◌<◌, ◌≡◌, refl, ap, ◌∙◌, ◌⊎◌, inl, inr, arith, List, [], ◌∷◌, map, All,
  length, get_or,
}
use cachetest.Memory.{Memory, load32}
use cachetest.Memory.Route.{word, Route}
use cachetest.Distribution.Subpath.Distribute.Ring.{chunk_at, Closed}
use cachetest.Chase.{SubpathInfo, split_pointer_chasing_path}
use cachetest.Chase.Split.{itself}
use cachetest.Chase.Alarm.{StartsFrom}
use cachetest.Chase.Race.{start_idx_after, start_thread, thread_test}
use cachetest.Chase.Race.Wounded.{Chain-Wounded}
use cachetest.Chase.Race.Safe.{Sound, IsOnPath}

-- What a word of a route holds.
Route-next :
    (m : Memory) (base i : ℕ) (js : List ℕ) (goal k : ℕ)
    → Memᴰ k (i ∷ js)
    → Route m base i js goal
    → (load32 m (word base k) ≡ goal)
      ⊎ ((k' : ℕ) × Memᴰ k' js × (load32 m (word base k) ≡ word base k'))
Route-next m base i [] goal k (Memᴰ.head e) r = rw e (inl r.0)
Route-next m base i [] goal k (Memᴰ.tail on) r = elim on [ ]
Route-next m base i (j ∷ js) goal k (Memᴰ.head e) r = rw e (inr (j, Memᴰ.head refl, r.0))
Route-next m base i (j ∷ js) goal k (Memᴰ.tail on) r = elim (Route-next m base j js goal k on r.1) [
  | inl back ↦ inl back
  | inr (k', on', next) ↦ inr (k', Memᴰ.tail on', next)
]

-- Steps from a word of a cycle lead to a word of it.
start_idx_after-Route :
    (offset : ℕ) (m : Memory) (base k : ℕ) (js : List ℕ)
    → Route m base 0 js base
    → Memᴰ k (0 ∷ js)
    → (k' : ℕ) × Memᴰ k' (0 ∷ js) × (start_idx_after offset m (word base k) ≡ word base k')
unfolding start_idx_after
start_idx_after-Route zero m base k js r on = (k, on, refl)
start_idx_after-Route (suc n) m base k js r on = elim (Route-next m base 0 js base k on r) [
  | inl back ↦
      let first : base ≡ word base 0 = omega arith in
      let (k', on', e) = start_idx_after-Route n m base 0 js r (Memᴰ.head refl) in
      (k', on', ap (start_idx_after n m) (back ∙ first) ∙ e)
  | inr (k1, on1, next) ↦
      let (k', on', e) = start_idx_after-Route n m base k1 js r (Memᴰ.tail on1) in
      (k', on', ap (start_idx_after n m) next ∙ e)
]

StartsFrom-get_or :
    (at per i : ℕ) (infos : List SubpathInfo) (j : ℕ)
    → StartsFrom at per i infos
    → j < length infos
    → get_or (map (λ info. info.start_idx) infos) j 0 ≡ chunk_at at per (i + j)
StartsFrom-get_or at per i [] j starts h = absurd (omega arith)
StartsFrom-get_or at per i (info ∷ infos) zero starts h =
    let same : i + 0 ≡ i = omega arith in rw same starts.0
StartsFrom-get_or at per i (info ∷ infos) (suc j) starts h =
    let same : i + suc j ≡ i + 1 + j = omega arith in
    rw same (StartsFrom-get_or at per (i + 1) infos j starts.1 (omega arith))

StartsFrom-pending :
    (at per i : ℕ) (infos : List SubpathInfo)
    → StartsFrom at per i infos
    → All (λ info. (t : ℕ) × (info.start_idx ≡ chunk_at at per t)) infos
StartsFrom-pending at per i [] starts = tt
StartsFrom-pending at per i (info ∷ infos) starts =
    ((i, starts.0), StartsFrom-pending at per (i + 1) infos starts.1)

module _ (Shape : List ℕ → Type 0) (at per subpaths : ℕ) (m : Memory) (infos : List SubpathInfo)
    (pos : 0 < per) (starts : StartsFrom at per 0 infos) (count : length infos ≡ subpaths)
    (cycles : (j : ℕ)
      → j < subpaths
      → Closed Shape at per itself (split_pointer_chasing_path infos m) j) where
  start_thread-IsOnPath :
      (j offset : ℕ)
      → j < subpaths
      → IsOnPath Shape at per subpaths
          (split_pointer_chasing_path infos m)
          infos
          pos
          cycles
          (start_thread infos (split_pointer_chasing_path infos m) (j, offset))
  unfolding start_thread
  start_thread-IsOnPath j offset h =
      let c = cycles j h in
      let (k', on', e) =
        start_idx_after-Route offset (split_pointer_chasing_path infos m) (chunk_at at per j) 0
          c.steps c.route (Memᴰ.head refl) in
      let none : 0 + j ≡ j = omega arith in
      let first : get_or (map (λ info. info.start_idx) infos) j 0 ≡ word (chunk_at at per j) 0 =
        StartsFrom-get_or at per 0 infos j starts (omega arith)
        ∙ omega (arith, ap (λ (n : ℕ). n * per) none) in
      (h, inl (k', on', ap (start_idx_after offset (split_pointer_chasing_path infos m)) first ∙ e))

  all-IsOnPath :
      (at_barrier : List (ℕ × ℕ))
      → All (λ s. s.0 < subpaths) at_barrier
      → All
          (IsOnPath Shape at per subpaths (split_pointer_chasing_path infos m) infos pos cycles)
          (map (start_thread infos (split_pointer_chasing_path infos m)) at_barrier)
  all-IsOnPath [] h = tt
  all-IsOnPath ((j, offset) ∷ rest) h = (start_thread-IsOnPath j offset h.0, all-IsOnPath rest h.1)

  pub thread_test-Sound :
      (at_barrier : List (ℕ × ℕ))
      → All (λ s. s.0 < subpaths) at_barrier
      → Sound Shape at per subpaths
          (split_pointer_chasing_path infos m)
          infos
          pos
          cycles
          (thread_test infos m at_barrier)
  unfolding thread_test
  thread_test-Sound at_barrier h = record {
    wounded = λ j lt. Chain-Wounded (split_pointer_chasing_path infos m) _ _ (cycles j lt).route;
    threads = all-IsOnPath at_barrier h;
    alarm = refl;
    pending = StartsFrom-pending at per 0 infos starts;
  }
