-- ===== src/Chase/Race.antt =====
-- The threads of `threadTest` (src/cachetest.cc), each in `loop`, and `alarm_handler`, which
-- interrupts them: every read and every write is a step of its own, in any order.
pub mod Wounded
pub mod Safe
pub mod Start
use cachetest.Prelude.{ℕ, zero, suc, ◌≡◌, Bool, false, List, [], ◌∷◌, ◌++◌, map, get_or, minus_one}
use cachetest.Memory.{Memory, load32, store32}
use cachetest.Chase.{SubpathInfo, Chaser, chase_step, stopped, split_pointer_chasing_path}

-- The start of a thread: from the first word of its subpath, `stepsOffset` words on.
unfoldable pub start_idx_after : ℕ → Memory → ℕ → ℕ
start_idx_after zero m idx = idx
start_idx_after (suc k) m idx = start_idx_after k m (load32 m idx)

-- A thread and the subpath that it is on.
pub record Thread : Type 0 where
  pub subpath_idx : ℕ
  pub chaser : Chaser

-- `pending` are the infos that the handler has not come to yet; before the alarm, all.
pub record World : Type 0 where
  pub memory : Memory
  pub pending : List SubpathInfo
  pub threads : List Thread

pub data Step : World → World → Type 0 where
  chase :
      {m : Memory} {p : List SubpathInfo} (before : List Thread) (t : Thread) (after : List Thread)
      → stopped t.chaser ≡ false
      → Step
          (record { memory = m; pending = p; threads = before ++ t ∷ after })
          (record {
            memory = m;
            pending = p;
            threads = before ++ (record t { chaser = chase_step m t.chaser }) ∷ after;
          })
  alarm :
      {m : Memory} {info : SubpathInfo} {p : List SubpathInfo} {ts : List Thread}
      → Step
          (record { memory = m; pending = info ∷ p; threads = ts })
          (record { memory = store32 m info.start_idx minus_one; pending = p; threads = ts })

-- Any number of steps.
pub data Run : World → World → Type 0 where
  stay : {w : World} → Run w w
  go : {w v u : World} → Run w v → Step v u → Run w u

-- The callback of `threadTest`, up to its call of `loop`, for a thread of subpath `j` that starts
-- `offset` steps on.
unfoldable pub start_thread : List SubpathInfo → Memory → ℕ × ℕ → Thread
start_thread infos m (j, offset) = record {
  subpath_idx = j;
  chaser = record {
    index = start_idx_after offset m (get_or (map (λ info. info.start_idx) infos) j 0);
    accesscount = 0;
  };
}

-- `threadTest`, when all threads are at the barrier: the path is split before they start.
unfoldable pub thread_test : List SubpathInfo → Memory → List (ℕ × ℕ) → World
thread_test infos m starts =
    let m' = split_pointer_chasing_path infos m in
    record { memory = m'; pending = infos; threads = map (start_thread infos m') starts }
