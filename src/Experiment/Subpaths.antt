-- ===== src/Experiment/Subpaths.antt =====
-- `Setup_distribution`, `splitPointerChasingPath` and `alarm_handler` (src/cachetest.cc) one after
-- the other, as `main` and `threadTest` call them.
use cachetest.Prelude.{
  ℕ, suc, ◌+◌, ◌*◌, ◌≤◌, ◌<◌, ◌≡◌, Bool, ap, ◌∙◌, false, not, ◌&&◌, arith, List, [], ◌∷◌, length,
  length-map, All, perm-range-length, two32, done,
}
use cachetest.Memory.{Memory}
use cachetest.Buffer.{Buffer, get_size, buffer_offset, is_large_buffer, get_slabs}
use cachetest.Distribution.{Generator, IsLawful, Distribution, setup}
use cachetest.Distribution.Subpath.{line_size}
use cachetest.Distribution.Subpath.Distribute.{is_empty, subpath_do_distribute}
use cachetest.Distribution.Subpath.Distribute.Layer.{words_per_line}
use cachetest.Distribution.Subpath.Distribute.Ring.{chunk_at, ring, Closed, Kept-buffer_offset}
use cachetest.Distribution.Subpath.Distribute.Uniform.{AllLines}
use cachetest.Distribution.Subpath.Distribute.Whole.{IsSplit, subpath_do_distribute-uniform}
use cachetest.Chase.{
  SubpathInfo, collect_pointer_chasing_subpath_info, split_pointer_chasing_path, alarm_handler,
}
use cachetest.Chase.Measure.{IsInfo, InfosFrom, collect_lem}
use cachetest.Chase.Split.{itself, split_lem}
use cachetest.Chase.Alarm.{StartsFrom}
use cachetest.Chase.Alarm.Stop.{AllStop, loop_steps}
use cachetest.Experiment.{Options, setup_distribution}

-- The run is one for which the set-up is meant: lines of 64 bytes, a buffer factor of 1, and a
-- buffer that splits evenly into `subpaths` chunks of `per` datalines.
pub record IsRegular (opt : Options) (b : Buffer) (subpaths per : ℕ) : Type 0 where
  pub plain : (is_large_buffer b && not (is_empty (get_slabs b))) ≡ false
  pub cacheline : opt.cacheline ≡ line_size
  pub dataset : opt.dataset ≡ get_size b
  pub size : get_size b ≡ line_size * (subpaths * per)
  pub some_subpath : 0 < subpaths
  pub some_line : 0 < per
  pub room : chunk_at (buffer_offset b) per subpaths ≤ two32

-- A path through all of `per` datalines has `per` words.
IsInfo-length :
    (at per : ℕ) (next : ℕ → ℕ) (m : Memory) (i : ℕ) (info : SubpathInfo)
    → IsInfo (AllLines per) at per next m i info
    → info.length ≡ per
IsInfo-length at per next m i info known =
    let (visits, e, p) = known.closed.shape in
    known.count ∙ ap suc (ap length e ∙ length-map _ visits) ∙ perm-range-length per p

InfosFrom-length :
    (at per : ℕ) (next : ℕ → ℕ) (m : Memory) (i : ℕ) (infos : List SubpathInfo)
    → InfosFrom (AllLines per) at per next m i infos
    → All (λ info. info.length ≡ per) infos
InfosFrom-length at per next m i [] known = tt
InfosFrom-length at per next m i (info ∷ infos) known = (
  IsInfo-length at per next m i info known.0,
  InfosFrom-length at per next m (i + 1) infos known.1,
)

module _ (g : Generator) (fuel : ℕ) (opt : Options) (b : Buffer) (subpaths per : ℕ) where
  setup-IsSplit :
      IsRegular opt b subpaths per → IsSplit subpaths per (setup b 4 opt.seed opt.cacheline)
  unfolding setup
  setup-IsSplit r = record {
    plain = r.plain;
    cacheline = r.cacheline;
    size = r.size;
    some_subpath = r.some_subpath;
    some_line = r.some_line;
    room = r.room;
  }

  setup_distribution-done :
      (zipf : Bool) (d : Distribution) (infos : List SubpathInfo)
      → subpath_do_distribute g subpaths zipf (setup b 4 opt.seed opt.cacheline) ≡ done d
      → buffer_offset d.buffer ≡ buffer_offset b
      → collect_pointer_chasing_subpath_info fuel d.buffer.memory
          (buffer_offset b)
          opt.dataset
          subpaths
        ≡ done infos
      → setup_distribution g fuel opt b subpaths zipf ≡ done (d, infos)
  unfolding setup_distribution
  setup_distribution-done zipf d infos runs same found = rw (runs, same, found)

  -- The measurement of a ring of chunks.
  setup_distribution-Closed :
      (Shape : List ℕ → Type 0) (zipf : Bool) (d : Distribution)
      → IsRegular opt b subpaths per
      → words_per_line * per ≤ fuel
      → subpath_do_distribute g subpaths zipf (setup b 4 opt.seed opt.cacheline) ≡ done d
      → ((j : ℕ)
          → j < subpaths
          → Closed Shape (buffer_offset b) per (ring subpaths) d.buffer.memory j)
      → buffer_offset d.buffer ≡ buffer_offset b
      → (infos : List SubpathInfo) × (setup_distribution g fuel opt b subpaths zipf
          ≡ done (d, infos))
        × (length infos ≡ subpaths)
        × InfosFrom Shape (buffer_offset b) per (ring subpaths) d.buffer.memory 0 infos
  setup_distribution-Closed Shape zipf d r enough runs closed same =
      let (infos, found, count, known) =
        collect_lem Shape (buffer_offset b) per subpaths fuel d.buffer.memory r.room r.some_line
          enough opt.dataset (omega (arith, r.dataset, r.size)) r.some_subpath closed in
      (infos, setup_distribution-done zipf d infos runs same found, count, known)

  -- For a regular run in the uniform case the set-up returns, whatever the random numbers. The
  -- infos are those of the subpaths in order: each names the first and the last word of a path that
  -- visits every dataline of its chunk once, and that has as many words as the chunk has datalines.
  pub setup_distribution-uniform :
      IsLawful g
      → IsRegular opt b subpaths per
      → words_per_line * per ≤ fuel
      → (d : Distribution) × (infos : List SubpathInfo) × (setup_distribution g fuel opt b subpaths
            false
          ≡ done (d, infos))
        × (length infos ≡ subpaths)
        × InfosFrom (AllLines per) (buffer_offset b) per (ring subpaths) d.buffer.memory 0 infos
        × All (λ info. info.length ≡ per) infos
  unfolding setup
  setup_distribution-uniform lawful r enough =
      let d0 = setup b 4 opt.seed opt.cacheline in
      let (d, runs, closed, kept) =
        subpath_do_distribute-uniform g subpaths per d0 lawful (setup-IsSplit r) in
      let (infos, ends, count, known) =
        setup_distribution-Closed (AllLines per) false d r enough runs closed
          (Kept-buffer_offset d0 d kept) in
      (
        d,
        infos,
        ends,
        count,
        known,
        InfosFrom-length (buffer_offset b) per (ring subpaths) d.buffer.memory 0 infos known,
      )

module _ (at per subpaths : ℕ) (next : ℕ → ℕ) (m : Memory) (infos : List SubpathInfo)
    (pos : 0 < per) (room : chunk_at at per subpaths ≤ two32)
    (count : length infos ≡ subpaths) where
  -- The infos name the first words of the chunks.
  pub InfosFrom-StartsFrom :
      (Shape : List ℕ → Type 0) (i : ℕ) (rest : List SubpathInfo)
      → InfosFrom Shape at per next m i rest
      → StartsFrom at per i rest
  InfosFrom-StartsFrom Shape i [] known = tt
  InfosFrom-StartsFrom Shape i (info ∷ rest) known =
      (known.0.start, InfosFrom-StartsFrom Shape (i + 1) rest known.1)

  -- After the measured subpaths have been split, each is a cycle: from its first word through the
  -- same kind of path back to its own first word.
  pub split-cycles :
      (Shape : List ℕ → Type 0)
      → InfosFrom Shape at per next m 0 infos
      → (j : ℕ) → j < subpaths
      → Closed Shape at per itself (split_pointer_chasing_path infos m) j
  split-cycles Shape known j h =
      split_lem Shape at per next m infos pos (omega (arith, ap (λ (n : ℕ). n * per) count)) known j
        (omega arith)

  -- After the alarm, a thread at any word of any of the split subpaths leaves `loop`, after at most
  -- as many reads as the subpath has words.
  pub alarm-stops :
      (Shape : List ℕ → Type 0)
      → InfosFrom Shape at per next m 0 infos
      → (j : ℕ) → j < subpaths
      → (c : Closed Shape at per itself (split_pointer_chasing_path infos m) j)
      → All
          (AllStop
            (alarm_handler infos (split_pointer_chasing_path infos m))
            (chunk_at at per j)
            (suc (length c.steps)))
          (0 ∷ c.steps)
  alarm-stops Shape known j h c =
      loop_steps at per subpaths pos room infos (split_pointer_chasing_path infos m) j c.steps
        (InfosFrom-StartsFrom Shape 0 infos known) (omega arith) h c.distinct.0 c.bound c.route
