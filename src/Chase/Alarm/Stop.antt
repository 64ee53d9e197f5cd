-- ===== src/Chase/Alarm/Stop.antt =====
-- `loop` (src/cachetest.cc) ends, once `alarm_handler` has broken the subpaths.
use cachetest.Prelude.{
  ℕ, zero, suc, ◌*◌, ◌≤◌, ◌<◌, ◌≡◌, ◌≢◌, ap, sym, ◌∙◌, arith, done, List, [], ◌∷◌, length, All,
  All_mono, All_map2, two32, minus_one, ==_of_ne,
}
use cachetest.Memory.{Memory, load32}
use cachetest.Memory.Route.{word, Route, Route-frame}
use cachetest.Distribution.Subpath.Distribute.Layer.{words_per_line}
use cachetest.Distribution.Subpath.Distribute.Ring.{chunk_at, chunk_room}
use cachetest.Chase.{SubpathInfo, alarm_handler, Chaser, chase_step, stopped, loop}
use cachetest.Chase.Alarm.{StartsFrom, alarm_handler-kept, alarm_handler-breaks}

-- `loop` ends by its test, after at most `rounds` reads.
pub record Stops (m : Memory) (c : Chaser) (rounds : ℕ) : Type 0 where
  pub final : Chaser
  pub runs : loop rounds m c ≡ done final
  pub test : final.index ≡ minus_one

loop-stopped : (k : ℕ) (m : Memory) (c : Chaser) → c.index ≡ minus_one → loop k m c ≡ done c
unfolding loop stopped
loop-stopped zero m c e = ground arith
loop-stopped (suc k) m c e = ground arith

loop_step :
    (k : ℕ) (m : Memory) (c : Chaser)
    → c.index ≢ minus_one
    → loop (suc k) m c ≡ loop k m (chase_step m c)
unfolding loop stopped
loop_step k m c h = rw (==_of_ne c.index minus_one h)

Stops-later :
    (m : Memory) (c : Chaser) (rounds : ℕ)
    → c.index ≢ minus_one
    → Stops m (chase_step m c) rounds
    → Stops m c (suc rounds)
Stops-later m c rounds h s = record {
  final = s.final;
  runs = loop_step rounds m c h ∙ s.runs;
  test = s.test;
}

pub Stops-now : (m : Memory) (c : Chaser) (rounds : ℕ) → c.index ≡ minus_one → Stops m c rounds
Stops-now m c rounds h = record { final = c; runs = loop-stopped rounds m c h; test = h }

-- A chaser at the broken first word of its subpath.
Stops-start :
    (m : Memory) (start : ℕ) (c : Chaser) (rounds : ℕ)
    → load32 m start ≡ minus_one
    → start ≢ minus_one
    → c.index ≡ start
    → Stops m c (suc rounds)
unfolding chase_step
Stops-start m start c rounds broken h e =
    Stops-later m c rounds (λ f. h (sym e ∙ f))
      (Stops-now m (chase_step m c) rounds (ap (load32 m) e ∙ broken))

-- A chaser at word `i`, from where the subpath goes through `js` to its broken first word.
Stops-Route :
    (m : Memory) (base i : ℕ) (js : List ℕ) (start : ℕ) (c : Chaser) (rounds : ℕ)
    → Route m base i js start
    → load32 m start ≡ minus_one
    → start ≢ minus_one
    → All (λ k. word base k ≢ minus_one) (i ∷ js)
    → length js ≤ rounds
    → c.index ≡ word base i
    → Stops m c (suc (suc rounds))
unfolding chase_step
Stops-Route m base i [] start c rounds r broken h off few e =
    Stops-later m c (suc rounds) (λ f. off.0 (sym e ∙ f))
      (Stops-start m start (chase_step m c) rounds broken h (ap (load32 m) e ∙ r.0))
Stops-Route m base i (j ∷ js) start c zero r broken h off few e = absurd (omega arith)
Stops-Route m base i (j ∷ js) start c (suc rounds) r broken h off few e =
    Stops-later m c (suc (suc rounds)) (λ f. off.0 (sym e ∙ f))
      (Stops-Route m base j js start (chase_step m c) rounds r.1 broken h off.1 (omega arith)
        (ap (load32 m) e ∙ r.0))

-- Every chaser at one of the words of the rest of a subpath.
abbrev pub AllStop : (m : Memory) (base rounds k : ℕ) → Type 0
AllStop m base rounds k = (c : Chaser) → c.index ≡ word base k → Stops m c rounds

All-Stops :
    (m : Memory) (base i : ℕ) (js : List ℕ) (start rounds : ℕ)
    → Route m base i js start
    → load32 m start ≡ minus_one
    → start ≢ minus_one
    → All (λ k. word base k ≢ minus_one) (i ∷ js)
    → length js ≤ rounds
    → All (AllStop m base (suc (suc rounds))) (i ∷ js)
All-Stops m base i [] start rounds r broken h off few =
    ((λ c e. Stops-Route m base i [] start c rounds r broken h off few e), tt)
All-Stops m base i (j ∷ js) start rounds r broken h off few = (
  (λ c e. Stops-Route m base i (j ∷ js) start c rounds r broken h off few e),
  All-Stops m base j js start rounds r.1 broken h off.1 (omega arith),
)

module _ (at per subpaths : ℕ) (pos : 0 < per) (room : chunk_at at per subpaths ≤ two32) where
  -- No word of a chunk lies at -1.
  word-ne-minus_one :
      (i k : ℕ) → i < subpaths → k < words_per_line * per → word (chunk_at at per i) k ≢ minus_one
  word-ne-minus_one i k h lt e = omega (arith, chunk_room i subpaths per h)

  -- The rest of a subpath after its first word is not touched.
  alarm-Route :
      (infos : List SubpathInfo) (m : Memory) (i j : ℕ) (js : List ℕ) (next : ℕ)
      → StartsFrom at per 0 infos
      → All (λ k. 0 ≢ k) (j ∷ js)
      → All (λ k. k < words_per_line * per) (j ∷ js)
      → Route m (chunk_at at per i) j js next
      → Route (alarm_handler infos m) (chunk_at at per i) j js next
  alarm-Route infos m i j js next starts ne lt r =
      Route-frame m (alarm_handler infos m) (chunk_at at per i) j js next
        (All_map2 (λ k. 0 ≢ k) (λ k. k < words_per_line * per)
          (λ k.
            load32 (alarm_handler infos m) (word (chunk_at at per i) k)
            ≡ load32 m (word (chunk_at at per i) k))
          (λ k p q. alarm_handler-kept at per pos 0 infos m i k starts p q) (j ∷ js) ne lt)
        r

  -- Every chaser at a word of the subpath stops, after at most as many reads as it has words.
  pub loop_steps :
      (infos : List SubpathInfo) (m : Memory) (i : ℕ) (steps : List ℕ)
      → StartsFrom at per 0 infos
      → i < length infos
      → i < subpaths
      → All (λ k. 0 ≢ k) steps
      → All (λ k. k < words_per_line * per) (0 ∷ steps)
      → Route m (chunk_at at per i) 0 steps (chunk_at at per i)
      → All (AllStop (alarm_handler infos m) (chunk_at at per i) (suc (length steps))) (0 ∷ steps)
  loop_steps infos m i steps starts named h ne lt r = (first, rest steps ne lt.1 r)
    where
      base : ℕ
      base = chunk_at at per i

      broken : load32 (alarm_handler infos m) base ≡ minus_one
      broken = alarm_handler-breaks at per pos 0 infos m i starts (omega arith) (omega arith)

      start_ne : base ≢ minus_one
      start_ne e = word-ne-minus_one i 0 h lt.0 (omega arith)

      first : AllStop (alarm_handler infos m) base (suc (length steps)) 0
      first c e = Stops-start _ base c (length steps) broken start_ne (omega arith)

      rest :
          (js : List ℕ)
          → All (λ k. 0 ≢ k) js
          → All (λ k. k < words_per_line * per) js
          → Route m base 0 js base
          → All (AllStop (alarm_handler infos m) base (suc (length js))) js
      rest [] ne lt r = tt
      rest (j ∷ js) ne lt r =
          All-Stops _ base j js base (length js) (alarm-Route infos m i j js base starts ne lt r.1)
            broken start_ne
            (All_mono {P = λ k. k < words_per_line * per} (λ k q. word-ne-minus_one i k h q)
              (j ∷ js) lt)
            (omega arith)
