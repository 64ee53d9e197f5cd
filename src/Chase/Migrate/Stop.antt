-- ===== src/Chase/Migrate/Stop.antt =====
-- `migratingLoop` (src/cachetest.cc) ends, once `alarm_handler` has broken the subpaths.
use cachetest.Prelude.{
  ℕ, zero, suc, ◌+◌, ◌*◌, ◌≤◌, ◌<◌, ◌≡◌, ◌≢◌, refl, ap, ◌∙◌, inl, inr, eq_cases, Bool-cases, arith,
  List, [], ◌∷◌, length, All, leb, ◌==◌, true, ==_of_ne, two32, minus_one, u64,
}
use cachetest.Memory.{Memory, load32}
use cachetest.Memory.Route.{word, Route}
use cachetest.Distribution.Subpath.Distribute.Layer.{words_per_line}
use cachetest.Distribution.Subpath.Distribute.Ring.{chunk_at, chunk_room}
use cachetest.Chase.{SubpathInfo, alarm_handler}
use cachetest.Chase.Alarm.{StartsFrom, alarm_handler-kept, alarm_handler-breaks}
use cachetest.Chase.Migrate.{Migrant, migrant_step, migrate, migrating_loop}

-- The index goes to what is read, whether the fibre migrates or not.
migrant_step_index :
    (infos : List SubpathInfo) (subpaths : ℕ) (m : Memory) (s : Migrant)
    → (migrant_step infos subpaths m s).index ≡ load32 m s.index
unfolding migrant_step migrate
migrant_step_index infos subpaths m s =
    elim (Bool-cases (leb s.num_subpath_steps (u64 (s.cur_step + 1)))) [
      | inl over ↦ rw over refl
      | inr more ↦ rw more refl
    ]

-- The fibre has stopped, and will not go on.
loop-stopped :
    (k : ℕ) (infos : List SubpathInfo) (subpaths : ℕ) (m : Memory) (s : Migrant)
    → s.index ≡ minus_one
    → (migrating_loop k infos subpaths m s).index ≡ minus_one
unfolding migrating_loop
loop-stopped zero infos subpaths m s e = e
loop-stopped (suc k) infos subpaths m s e =
    let test : (s.index == minus_one) ≡ true = ground arith in rw test e

module _ (at per subpaths : ℕ) (pos : 0 < per) (room : chunk_at at per subpaths ≤ two32)
    (infos : List SubpathInfo) (m : Memory) (starts : StartsFrom at per 0 infos)
    (count : length infos ≡ subpaths) where
  abbrev alarmed : Memory
  alarmed = alarm_handler infos m

  abbrev Stopped : ℕ → Migrant → Type 0
  Stopped k s = (migrating_loop k infos subpaths alarmed s).index ≡ minus_one

  -- A round more.
  Stopped-suc :
      (k : ℕ) (s : Migrant)
      → s.index ≢ minus_one
      → Stopped k (migrant_step infos subpaths alarmed s)
      → Stopped (suc k) s
  unfolding migrating_loop
  Stopped-suc k s ne h = rw (==_of_ne s.index minus_one ne) h

  -- At the first word of a chunk.
  Stopped-first :
      (k i : ℕ) (s : Migrant) → i < subpaths → s.index ≡ chunk_at at per i → Stopped (suc k) s
  Stopped-first k i s h e =
      Stopped-suc k s (λ f. omega (arith, chunk_room i subpaths per h))
        (loop-stopped k infos subpaths alarmed (migrant_step infos subpaths alarmed s) (
          migrant_step_index infos subpaths alarmed s
          ∙ ap (load32 alarmed) e
          ∙ alarm_handler-breaks at per pos 0 infos m i starts (omega arith) (omega arith)))

  -- The handler has left the words behind the first as they are.
  reads :
      (i here : ℕ) (s : Migrant)
      → s.index ≡ word (chunk_at at per i) here
      → 0 ≢ here
      → here < words_per_line * per
      → (migrant_step infos subpaths alarmed s).index ≡ load32 m (word (chunk_at at per i) here)
  reads i here s e ne lt =
      migrant_step_index infos subpaths alarmed s
      ∙ ap (load32 alarmed) e
      ∙ alarm_handler-kept at per pos 0 infos m i here starts ne lt

  away :
      (i here : ℕ) (s : Migrant)
      → i < subpaths
      → s.index ≡ word (chunk_at at per i) here
      → here < words_per_line * per
      → s.index ≢ minus_one
  away i here s h e lt f = omega (arith, chunk_room i subpaths per h)

  -- At any word of a chunk, from where the path went through `rest` to another chunk before the alarm.
  pub Stopped-Route :
      (rest : List ℕ) (k i here to : ℕ) (s : Migrant)
      → length rest + 2 ≤ k
      → i < subpaths
      → to < subpaths
      → s.index ≡ word (chunk_at at per i) here
      → All (λ j. j < words_per_line * per) (here ∷ rest)
      → Route m (chunk_at at per i) here rest (chunk_at at per to)
      → Stopped k s
  Stopped-Route rest zero i here to s enough h h' e inside route = absurd (omega arith)
  Stopped-Route rest (suc zero) i here to s enough h h' e inside route = absurd (omega arith)
  Stopped-Route [] (suc (suc k)) i here to s enough h h' e inside route = elim (eq_cases 0 here) [
    | inl first ↦ Stopped-first (suc k) i s h (e ∙ omega arith)
    | inr later ↦ Stopped-suc (suc k) s (away i here s h e inside.0) (
        Stopped-first k to (migrant_step infos subpaths alarmed s) h'
          (reads i here s e later inside.0 ∙ route.0))
  ]
  Stopped-Route (j ∷ js) (suc (suc k)) i here to s enough h h' e inside route =
      elim (eq_cases 0 here) [
        | inl first ↦ Stopped-first (suc k) i s h (e ∙ omega arith)
        | inr later ↦ Stopped-suc (suc k) s (away i here s h e inside.0) (
            Stopped-Route js (suc k) i j to (migrant_step infos subpaths alarmed s) (omega arith) h
              h' (reads i here s e later inside.0 ∙ route.0) inside.1 route.1)
      ]
