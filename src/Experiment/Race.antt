-- ===== src/Experiment/Race.antt =====
-- `threadTest` and `alarm_handler` (src/cachetest.cc) on the subpaths that were set up.
use mathlib.Core.List.{Memᴰ}
use cachetest.Prelude.{
  ℕ, suc, ◌<◌, ◌≤◌, ◌≡◌, sym, ap, ◌∙◌, inl, inr, List, [], ◌∷◌, length, All, All_mono, two32,
}
use cachetest.Memory.{Memory}
use cachetest.Distribution.Subpath.Distribute.Ring.{chunk_at, Closed}
use cachetest.Chase.{SubpathInfo, split_pointer_chasing_path, alarm_handler}
use cachetest.Chase.Split.{itself}
use cachetest.Chase.Measure.{InfosFrom}
use cachetest.Chase.Alarm.Stop.{Stops, Stops-now}
use cachetest.Chase.Race.{Thread, World, Run, thread_test}
use cachetest.Chase.Race.Safe.{Sound, IsOnPath, Run-Sound}
use cachetest.Chase.Race.Start.{thread_test-Sound}
use cachetest.Experiment.Subpaths.{InfosFrom-StartsFrom, split-cycles, alarm-stops}

All-Mem {κ} : (P : ℕ → Type κ) (k : ℕ) (xs : List ℕ) → Memᴰ k xs → All P xs → P k
All-Mem P k [] on h = elim on [ ]
All-Mem P k (x ∷ xs) (Memᴰ.head e) h = rw e h.0
All-Mem P k (x ∷ xs) (Memᴰ.tail on) h = All-Mem P k xs on h.1

module _ (Shape : List ℕ → Type 0) (at per subpaths : ℕ) (next : ℕ → ℕ) (m : Memory)
    (infos : List SubpathInfo) (pos : 0 < per) (room : chunk_at at per subpaths ≤ two32)
    (count : length infos ≡ subpaths) (known : InfosFrom Shape at per next m 0 infos)
    (at_barrier : List (ℕ × ℕ)) (on_subpaths : All (λ s. s.0 < subpaths) at_barrier) where
  -- The cycles of the split subpaths.
  abbrev pub cycle_of :
      (j : ℕ) → j < subpaths → Closed Shape at per itself (split_pointer_chasing_path infos m) j
  cycle_of j h = split-cycles at per subpaths next m infos pos room count Shape known j h

  abbrev pub IsThreadOnPath : Thread → Type 0
  IsThreadOnPath =
      IsOnPath Shape at per subpaths (split_pointer_chasing_path infos m) infos pos cycle_of

  reachable-Sound :
      (w : World)
      → Run (thread_test infos m at_barrier) w
      → Sound Shape at per subpaths (split_pointer_chasing_path infos m) infos pos cycle_of w
  reachable-Sound w r =
      Run-Sound Shape at per subpaths (split_pointer_chasing_path infos m) infos pos cycle_of
        (thread_test infos m at_barrier) w r
        (thread_test-Sound Shape at per subpaths m infos pos
          (InfosFrom-StartsFrom at per subpaths next m infos pos room count Shape 0 infos known)
          count cycle_of at_barrier on_subpaths)

  -- In any interleaving of the threads' reads with the writes of the handler, the index of each
  -- thread is that of a word on the cycle of the thread's own subpath, or is -1.
  pub race-safe :
      (w : World) → Run (thread_test infos m at_barrier) w → All IsThreadOnPath w.threads
  race-safe w r = (reachable-Sound w r).threads

  -- A thread leaves its loop, after at most as many reads as its subpath has words.
  abbrev pub LeavesLoop : Memory → Thread → Type 0
  LeavesLoop final t =
      (h : t.subpath_idx < subpaths) × Stops final t.chaser
        (suc (length (cycle_of t.subpath_idx h).steps))

  -- In any interleaving of the threads' reads with the writes of the handler, once the handler is
  -- through, each thread leaves its loop, after at most as many reads as its subpath has words.
  pub race-stops :
      (w : World)
      → Run (thread_test infos m at_barrier) w
      → w.pending ≡ []
      → All (LeavesLoop w.memory) w.threads
  unfolding alarm_handler
  race-stops w r through = All_mono {P = IsThreadOnPath} leaves w.threads s.threads
    where
      s : Sound Shape at per subpaths (split_pointer_chasing_path infos m) infos pos cycle_of w
      s = reachable-Sound w r

      -- The handler is through with the split memory.
      final : w.memory ≡ alarm_handler infos (split_pointer_chasing_path infos m)
      final = ap (λ p. alarm_handler p w.memory) (sym through) ∙ s.alarm

      leaves : (t : Thread) → IsThreadOnPath t → LeavesLoop w.memory t
      leaves t (h, inr e) = (h, Stops-now w.memory t.chaser _ e)
      leaves t (h, inl (k, on, e)) =
          let c = cycle_of t.subpath_idx h in
          let all =
            alarm-stops at per subpaths next m infos pos room count Shape known t.subpath_idx h c in
          (h, rw final (All-Mem _ k (0 ∷ c.steps) on all t.chaser e))
